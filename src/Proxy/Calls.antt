-- ===== src/Proxy/Calls.antt =====
-- `Proxy::FloatingAsyncCallSlots` of src/Proxy.cpp: the calls whose answers are pending. A call is
-- the number of its `AsyncCallInfo`; each function is one critical section of the mutex.
use sdbus_cpp.Prelude.{ℕ, Bool, true, List, [], ◌∷◌, ◌++◌, ◌==◌, if◌then◌else◌}
use sdbus_cpp.Proxy.Counts.{remove}

pub record Calls : Type 0 where
  pub slots : List ℕ
  -- The member `finished` of each call.
  pub finished : ℕ → Bool

-- The call may have finished in the meantime.
unfoldable pub push_back : ℕ → Calls → Calls
push_back i c = if c.finished i then c else record c { slots = c.slots ++ i ∷ [] }

unfoldable pub erase : ℕ → Calls → Calls
erase i c = record c {
  slots = remove i c.slots;
  finished = λ k. if i == k then true else c.finished k;
}

-- The calls that were there are handed to the caller, who releases them.
unfoldable pub clear : Calls → List ℕ × Calls
clear c = (c.slots, record c { slots = [] })
