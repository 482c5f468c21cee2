-- ===== src/SdBus.antt =====
-- src/SdBus.cpp: each function of `SdBus` calls libsystemd's function of its name, most of them under
-- a recursive mutex, since callbacks that libsystemd invokes call functions of `SdBus` again. The
-- threads' calls are sequences of steps: a function begins, with the mutex locked if it locks it, or
-- returns. And the functions that open a connection to an address or a descriptor.
use sdbus_cpp.Prelude.{
  ℕ, zero, suc, ◌+◌, ◌-◌, ◌==◌, ℤ, is_neg, Bool, true, false, Option, none, some, List, [], ◌∷◌,
  if◌then◌else◌,
}
pub mod Exclusive
pub mod Reentrant
pub mod Opening
mod Tests

-- The functions, without their prefix `sd_bus_`; the two of the name `sd_bus_open_direct` are one.
pub data SdBusFunction : Type 0 where
  message_ref message_unref send call call_async message_new message_new_method_call : SdBusFunction
  message_new_signal message_new_method_return message_new_method_error : SdBusFunction
  set_method_call_timeout get_method_call_timeout emit_properties_changed_strv : SdBusFunction
  emit_object_added emit_object_removed emit_interfaces_added_strv : SdBusFunction
  emit_interfaces_removed_strv open_bus open_system open_user open_user_with_address : SdBusFunction
  open_direct open_server open_system_remote request_name release_name get_unique_name :
      SdBusFunction
  add_object_vtable add_object_manager add_match add_match_async match_signal slot_unref :
      SdBusFunction
  new_bus start process get_current_message get_poll_data get_n_queued flush : SdBusFunction
  flush_close_unref close_unref message_set_destination query_sender_creds creds_ref : SdBusFunction
  creds_unref creds_get_pid creds_get_uid creds_get_euid creds_get_gid creds_get_egid :
      SdBusFunction
  creds_get_supplementary_gids creds_get_selinux_context : SdBusFunction

-- Whether the function locks the mutex.
unfoldable pub locks : SdBusFunction → Bool
locks open_bus = false
locks open_system = false
locks open_user = false
locks open_user_with_address = false
locks open_direct = false
locks open_server = false
locks open_system_remote = false
locks new_bus = false
locks start = false
locks get_current_message = false
locks flush = false
locks flush_close_unref = false
locks close_unref = false
locks _ = true

-- `std::recursive_mutex`: the thread that holds it and how often, or a depth of zero.
pub record Mutex : Type 0 where
  pub owner : ℕ
  pub depth : ℕ

-- A thread that cannot lock waits: it takes no step.
unfoldable pub lock : ℕ → Mutex → Option Mutex
lock thread m =
    if m.depth == 0
    then some (record { owner = thread; depth = 1 })
    else if m.owner == thread
    then some (record m { depth = suc m.depth })
    else none

unfoldable pub unlock : Mutex → Mutex
unlock m = record m { depth = m.depth - 1 }

-- The calls that each thread is in, the innermost first.
pub record Callers : Type 0 where
  pub mutex : Mutex
  pub calls : ℕ → List SdBusFunction

unfoldable pub with_calls :
    ℕ → List SdBusFunction → (ℕ → List SdBusFunction) → ℕ → List SdBusFunction
with_calls thread fs calls other = if other == thread then fs else calls other

pub data CallStep : Type 0 where
  begins : (thread : ℕ) → SdBusFunction → CallStep
  returns : (thread : ℕ) → CallStep

-- The lock guard is constructed before the call of libsystemd.
unfoldable pub begin_call : ℕ → SdBusFunction → Callers → Option Callers
unfolding locks lock with_calls
begin_call thread f s =
    let calls = with_calls thread (f ∷ s.calls thread) s.calls in
    if locks f
    then (elim (lock thread s.mutex) [
      | none ↦ none
      | some m ↦ some (record { mutex = m; calls = calls })
    ])
    else some (record { mutex = s.mutex; calls = calls })

-- It is destroyed after that call has returned.
unfoldable pub return_call : ℕ → List SdBusFunction → Callers → Option Callers
unfolding locks unlock with_calls
return_call thread [] s = none
return_call thread (f ∷ fs) s = some (record {
  mutex = if locks f then unlock s.mutex else s.mutex;
  calls = with_calls thread fs s.calls;
})

unfoldable pub call_step : CallStep → Callers → Option Callers
unfolding begin_call return_call
call_step (begins thread f) s = begin_call thread f s
call_step (returns thread) s = return_call thread (s.calls thread) s

unfoldable pub call_steps : List CallStep → Callers → Option Callers
unfolding call_step
call_steps [] s = some s
call_steps (step ∷ steps) s = elim (call_step step s) [
  | none ↦ none
  | some s' ↦ call_steps steps s'
]

-- At first no thread is in a call.
abbrev pub nobody : Callers
nobody = record { mutex = record { owner = 0; depth = 0 }; calls = λ thread. [] }
