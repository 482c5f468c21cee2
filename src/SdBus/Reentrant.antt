-- ===== src/SdBus/Reentrant.antt =====
-- The calls of libsystemd are serialized, and callbacks do not wait for their own thread.
use sdbus_cpp.Prelude.{
  All, false, ==_iff, Bool-cases, ℕ, suc, ◌<◌, ◌==◌, true, some, List, [], ◌∷◌, ◌≡◌, ◌≢◌, refl,
  arith, inl, inr,
}
use sdbus_cpp.SdBus.{
  SdBusFunction, message_ref, message_unref, send, call, call_async, message_new,
  message_new_method_call, message_new_signal, message_new_method_return, message_new_method_error,
  set_method_call_timeout, get_method_call_timeout, emit_properties_changed_strv, emit_object_added,
  emit_object_removed, emit_interfaces_added_strv, emit_interfaces_removed_strv, open_bus,
  open_system, open_user, open_user_with_address, open_direct, open_server, open_system_remote,
  request_name, release_name, get_unique_name, add_object_vtable, add_object_manager, add_match,
  add_match_async, match_signal, slot_unref, new_bus, start, process, get_current_message,
  get_poll_data, get_n_queued, flush, flush_close_unref, close_unref, message_set_destination,
  query_sender_creds, creds_ref, creds_unref, creds_get_pid, creds_get_uid, creds_get_euid,
  creds_get_gid, creds_get_egid, creds_get_supplementary_gids, creds_get_selinux_context, locks,
  Mutex, lock, Callers, with_calls, CallStep, begin_call, return_call, call_steps, nobody,
}
use sdbus_cpp.SdBus.Exclusive.{locked, call_steps-IsExclusive}

lock-owner : (thread : ℕ) (m : Mutex) → m.owner ≡ thread → (m' : Mutex) × (lock thread m ≡ some m')
unfolding lock
lock-owner thread m own =
    let same : (m.owner == thread) ≡ true = ground arith in
    elim (Bool-cases (m.depth == 0)) [
      | inl e ↦ (record { owner = thread; depth = 1 }, rw (lock, e) refl)
      | inr e ↦ (record m { depth = suc m.depth }, rw (lock, e, same) refl)
    ]

begin_call-owner :
    (thread : ℕ) (f : SdBusFunction) (s : Callers)
    → s.mutex.owner ≡ thread
    → (s' : Callers) × (begin_call thread f s ≡ some s')
unfolding begin_call
begin_call-owner thread f s own =
    let calls = with_calls thread (f ∷ s.calls thread) s.calls in
    elim (Bool-cases (locks f)) [
      | inl e ↦
          let (m, l) = lock-owner thread s.mutex own in
          (record { mutex = m; calls = calls }, rw (begin_call, e, l) refl)
      | inr e ↦ (record { mutex = s.mutex; calls = calls }, rw (begin_call, e) refl)
    ]

return_call-some :
    (thread : ℕ) (fs : List SdBusFunction) (s : Callers)
    → 0 < locked fs
    → (s' : Callers) × (return_call thread fs s ≡ some s')
unfolding return_call locked
return_call-some thread [] s h = absurd (omega (arith, h))
return_call-some thread (f ∷ fs) s h = (_, refl)

-- What need not wait: the functions that open, start, flush and close a connection, which its
-- constructor and destructor call, and the one that tells the message that is handled.
unfoldable pub IsUnguarded : SdBusFunction → Type 0
IsUnguarded open_bus = Unit
IsUnguarded open_system = Unit
IsUnguarded open_user = Unit
IsUnguarded open_user_with_address = Unit
IsUnguarded open_direct = Unit
IsUnguarded open_server = Unit
IsUnguarded open_system_remote = Unit
IsUnguarded new_bus = Unit
IsUnguarded start = Unit
IsUnguarded get_current_message = Unit
IsUnguarded flush = Unit
IsUnguarded flush_close_unref = Unit
IsUnguarded close_unref = Unit
IsUnguarded _ = ⊥

unlocked-IsUnguarded : (f : SdBusFunction) → locks f ≡ false → IsUnguarded f
unfolding locks IsUnguarded
unlocked-IsUnguarded message_ref h = absurd (cc h)
unlocked-IsUnguarded message_unref h = absurd (cc h)
unlocked-IsUnguarded send h = absurd (cc h)
unlocked-IsUnguarded call h = absurd (cc h)
unlocked-IsUnguarded call_async h = absurd (cc h)
unlocked-IsUnguarded message_new h = absurd (cc h)
unlocked-IsUnguarded message_new_method_call h = absurd (cc h)
unlocked-IsUnguarded message_new_signal h = absurd (cc h)
unlocked-IsUnguarded message_new_method_return h = absurd (cc h)
unlocked-IsUnguarded message_new_method_error h = absurd (cc h)
unlocked-IsUnguarded set_method_call_timeout h = absurd (cc h)
unlocked-IsUnguarded get_method_call_timeout h = absurd (cc h)
unlocked-IsUnguarded emit_properties_changed_strv h = absurd (cc h)
unlocked-IsUnguarded emit_object_added h = absurd (cc h)
unlocked-IsUnguarded emit_object_removed h = absurd (cc h)
unlocked-IsUnguarded emit_interfaces_added_strv h = absurd (cc h)
unlocked-IsUnguarded emit_interfaces_removed_strv h = absurd (cc h)
unlocked-IsUnguarded open_bus h = tt
unlocked-IsUnguarded open_system h = tt
unlocked-IsUnguarded open_user h = tt
unlocked-IsUnguarded open_user_with_address h = tt
unlocked-IsUnguarded open_direct h = tt
unlocked-IsUnguarded open_server h = tt
unlocked-IsUnguarded open_system_remote h = tt
unlocked-IsUnguarded request_name h = absurd (cc h)
unlocked-IsUnguarded release_name h = absurd (cc h)
unlocked-IsUnguarded get_unique_name h = absurd (cc h)
unlocked-IsUnguarded add_object_vtable h = absurd (cc h)
unlocked-IsUnguarded add_object_manager h = absurd (cc h)
unlocked-IsUnguarded add_match h = absurd (cc h)
unlocked-IsUnguarded add_match_async h = absurd (cc h)
unlocked-IsUnguarded match_signal h = absurd (cc h)
unlocked-IsUnguarded slot_unref h = absurd (cc h)
unlocked-IsUnguarded new_bus h = tt
unlocked-IsUnguarded start h = tt
unlocked-IsUnguarded process h = absurd (cc h)
unlocked-IsUnguarded get_current_message h = tt
unlocked-IsUnguarded get_poll_data h = absurd (cc h)
unlocked-IsUnguarded get_n_queued h = absurd (cc h)
unlocked-IsUnguarded flush h = tt
unlocked-IsUnguarded flush_close_unref h = tt
unlocked-IsUnguarded close_unref h = tt
unlocked-IsUnguarded message_set_destination h = absurd (cc h)
unlocked-IsUnguarded query_sender_creds h = absurd (cc h)
unlocked-IsUnguarded creds_ref h = absurd (cc h)
unlocked-IsUnguarded creds_unref h = absurd (cc h)
unlocked-IsUnguarded creds_get_pid h = absurd (cc h)
unlocked-IsUnguarded creds_get_uid h = absurd (cc h)
unlocked-IsUnguarded creds_get_euid h = absurd (cc h)
unlocked-IsUnguarded creds_get_gid h = absurd (cc h)
unlocked-IsUnguarded creds_get_egid h = absurd (cc h)
unlocked-IsUnguarded creds_get_supplementary_gids h = absurd (cc h)
unlocked-IsUnguarded creds_get_selinux_context h = absurd (cc h)

none_locked : (fs : List SdBusFunction) → locked fs ≡ 0 → All IsUnguarded fs
unfolding locked
none_locked [] h = tt
none_locked (f ∷ fs) h = elim (Bool-cases (locks f)) [
  | inl e ↦ absurd (let some_locked = rw (e, locked) at h in omega (arith, some_locked))
  | inr e ↦
      let others = rw (e, locked) at h in
      (unlocked-IsUnguarded f e, none_locked fs (omega (arith, others)))
]

-- Whatever calls of `SdBus` any number of threads make, nested in callbacks or not: while one thread
-- is in a function that is not among those that open, start, flush and close a connection or that
-- tell the current message, all functions that another thread is in are among those; and the thread
-- may begin any function, from a callback, without waiting, and return from the one that it is in.
pub call_steps_lem :
    (steps : List CallStep) (s : Callers) (thread other : ℕ) (f : SdBusFunction)
    → call_steps steps nobody ≡ some s
    → ¬ All IsUnguarded (s.calls thread)
    → other ≢ thread
    → All IsUnguarded (s.calls other)
      × ((s' : Callers) × (begin_call thread f s ≡ some s'))
      × ((s' : Callers) × (return_call thread (s.calls thread) s ≡ some s'))
unfolding begin_call return_call lock locked
call_steps_lem steps s thread other f h guarded differ =
    let v = call_steps-IsExclusive steps nobody s h (λ t. ground arith) in
    let here = v thread in
    let there = v other in
    elim (Bool-cases (locked (s.calls thread) == 0)) [
      | inl e ↦ absurd (guarded (none_locked (s.calls thread) ((==_iff _ 0).0 e)))
      | inr e ↦
          let inside : 0 < locked (s.calls thread) = ground arith in
          let mine : s.mutex.owner ≡ thread = ground arith in
          let free : locked (s.calls other) ≡ 0 = ground arith in
          (
            none_locked (s.calls other) free,
            begin_call-owner thread f s mine,
            return_call-some thread (s.calls thread) s inside,
          )
    ]
