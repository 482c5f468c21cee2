-- ===== src/Message/Raises.antt =====
-- The exceptions that deserialization throws: all are made of libsystemd's error numbers, and so are
-- `sdbus::Error`.
use sdbus_cpp.Prelude.{
  is_neg, errno_of, if◌then◌else◌, ℕ, zero, suc, ℤ, pos, negsuc, String, Bool, true, false, List,
  ◌++◌, [], ◌∷◌, Result, ok, throw, Exception, errno_error, out_of_fuel, ◌>>=◌, throw_error_if,
  Option-cases, inl, inr,
}
use sdbus_cpp.Message.Types.{
  BasicType, Ty, basic, variant, dict_entry, dictionary, unit, pair, Container, Value, signature_of,
  default_value,
}
use sdbus_cpp.Message.Api.{SdBusMessage}
use sdbus_cpp.Message.Write.{contiguous_type}
use sdbus_cpp.Message.Reader.{
  Reader, advanced, read_basic, read_array, enter, exit, enter_failure, read_failure,
}
use sdbus_cpp.Message.Read.{
  is_empty, read_variant, read_each, read_elements, deserialize_array, read_inside, read_both, read,
}

-- Made of an error number, or of the bound on a loop of the model.
abbrev pub IsRaised : Exception → Type 0
IsRaised (errno_error number what) = Unit
IsRaised out_of_fuel = Unit
IsRaised _ = ⊥

unfoldable pub Raises {ℓ} : {A : Type ℓ} → Result A → Type 0
Raises (ok a) = Unit
Raises (throw e) = IsRaised e

ok-Raises {ℓ} : {A : Type ℓ} (a : A) → Raises (ok a)
unfolding Raises
ok-Raises a = tt

out_of_fuel-Raises {ℓ} : (A : Type ℓ) → Raises {A = A} (throw out_of_fuel)
unfolding Raises
out_of_fuel-Raises A = tt

bind-Raises {ℓ κ} :
    {A : Type ℓ} {B : Type κ} (r : Result A) (f : A → Result B)
    → Raises r
    → ((a : A) → Raises (f a))
    → Raises (r >>= f)
unfolding Raises
bind-Raises (ok a) f p q = q a
bind-Raises (throw e) f p q = p

either-Raises {ℓ} :
    {A : Type ℓ} (b : Bool) (r r' : Result A)
    → Raises r
    → Raises r'
    → Raises (elim b as (λ x. Result A) [ true ↦ r | false ↦ r' ])
either-Raises true r r' p q = p
either-Raises false r r' p q = q

throw_error_if-Raises : (b : Bool) (what : String) (n : ℕ) → Raises (throw_error_if b what n)
unfolding Raises
throw_error_if-Raises true what n = tt
throw_error_if-Raises false what n = tt

module _ (bus : SdBusMessage) where
  advanced-Raises :
      (what : String) (r : ℤ) (m : bus.Msg) (s : Reader bus) → Raises (advanced bus what r m s)
  unfolding Raises
  advanced-Raises what (negsuc n) m s = tt
  advanced-Raises what (pos n) m s = tt

  -- Operators that throw nothing else.
  abbrev Safe {ℓ} : {A : Type ℓ} → (A → Reader bus → Result (A × Reader bus)) → Type ℓ
  Safe {A = A} f = (d : A) (s : Reader bus) → Raises (f d s)

  enter-Raises : (c : Container) (sig : List ℕ) (s : Reader bus) → Raises (enter bus c sig s)
  unfolding enter
  enter-Raises c sig s = advanced-Raises (enter_failure c) _ _ s

  exit-Raises : (c : Container) (s : Reader bus) → Raises (exit bus c s)
  unfolding exit
  exit-Raises c s = bind-Raises _ _ (throw_error_if-Raises _ _ _) (λ nothing. ok-Raises _)

  read_basic-Safe : (b : BasicType) → Safe (read_basic bus b)
  unfolding read_basic
  read_basic-Safe b d s =
      bind-Raises _ _ (advanced-Raises (read_failure b) _ _ s) (λ s'. ok-Raises _)

  read_array-Raises : (b : BasicType) (s : Reader bus) → Raises (read_array bus b s)
  unfolding read_array
  read_array-Raises b s = bind-Raises _ _ (advanced-Raises _ _ _ s) (λ s'. ok-Raises _)

  read_variant-Safe : Safe (read_variant bus)
  unfolding read_variant
  read_variant-Safe d s =
      let (r, ts, m) = bus.copy_item d s.msg in
      let copied = throw_error_if-Raises (is_neg r) "Failed to copy the message" (errno_of r) in
      let sealed =
        throw_error_if-Raises (is_neg (bus.seal_copy ts)) "Failed to seal the message"
          (errno_of (bus.seal_copy ts)) in
      bind-Raises _
        (λ (nothing : Unit {0}).
          ok (ts, record { msg = m; valid = if is_empty ts then false else s.valid }))
        (bind-Raises _ _ copied (λ nothing. sealed)) (λ nothing. ok-Raises _)

  read_each-Raises {ℓ} :
      {A : Type ℓ} (one : A → Reader bus → Result (A × Reader bus))
      → Safe one
      → (fuel : ℕ) (d : A) (xs : List A) (s : Reader bus) → Raises (read_each bus fuel one d xs s)
  unfolding read_each
  read_each-Raises one p zero d xs s = out_of_fuel-Raises _
  read_each-Raises one p (suc fuel) d xs s = bind-Raises _ _ (p d s) (λ (x, s').
      either-Raises s'.valid _ _ (read_each-Raises one p fuel d (xs ++ x ∷ []) s') (ok-Raises _))

  read_elements-Raises {ℓ} :
      {A : Type ℓ} (one : A → Reader bus → Result (A × Reader bus))
      → Safe one
      → (fuel : ℕ) (sig : List ℕ) (d : A) → Safe (read_elements bus fuel sig one d)
  unfolding read_elements
  read_elements-Raises one p fuel sig d xs s =
      bind-Raises _ _ (enter-Raises Container.array sig s) (λ inside.
        either-Raises inside.valid _ _
          (bind-Raises _ _ (read_each-Raises one p fuel d xs inside)
            (λ (ys, after). bind-Raises _ _ (exit-Raises Container.array _) (λ left. ok-Raises _)))
          (ok-Raises _))

  read_inside-Safe {ℓ} :
      {A : Type ℓ} (c : Container) (sig : List ℕ) (body : A → Reader bus → Result (A × Reader bus))
      → Safe body
      → Safe (read_inside bus c sig body)
  unfolding read_inside
  read_inside-Safe c sig body p d s = bind-Raises _ _ (enter-Raises c sig s) (λ inside.
      either-Raises inside.valid _ _
        (bind-Raises _ _ (p d inside)
          (λ (x, after). bind-Raises _ _ (exit-Raises c after) (λ left. ok-Raises _)))
        (ok-Raises _))

  read_both-Safe {ℓ κ} :
      {A : Type ℓ} {B : Type κ} (f : A → Reader bus → Result (A × Reader bus))
      (g : B → Reader bus → Result (B × Reader bus))
      → Safe f
      → Safe g
      → Safe (read_both bus f g)
  read_both-Safe f g p q (a, b) s =
      bind-Raises _ _ (p a s) (λ (x, s₁). bind-Raises _ _ (q b s₁) (λ (y, s₂). ok-Raises _))

  deserialize_array-Safe :
      (t : Ty) (fuel : ℕ) (one : Value t → Reader bus → Result (Value t × Reader bus))
      → Safe one
      → Safe (deserialize_array bus t fuel one)
  unfolding deserialize_array
  deserialize_array-Safe t fuel one p xs s = elim (Option-cases (contiguous_type t)) [
    | inl slow ↦
        rw (slow, deserialize_array)
          (read_elements-Raises one p fuel (signature_of t) (default_value t) xs s)
    | inr (b, fast) ↦
        rw (fast, deserialize_array)
          (bind-Raises _ _ (read_array-Raises b s) (λ (ps, after). ok-Raises _))
  ]

  -- The operator `>>` of a type throws an exception that is made of an error number, if it throws.
  pub read-Safe : (t : Ty) (fuel : ℕ) (d : Value t) (s : Reader bus) → Raises (read bus t fuel d s)
  unfolding read
  read-Safe (basic b) fuel = read_basic-Safe b
  read-Safe variant fuel = read_variant-Safe
  read-Safe (Ty.array t) fuel = deserialize_array-Safe t fuel (read bus t fuel) (read-Safe t fuel)
  read-Safe (dict_entry k v) fuel =
      read_inside-Safe _ _ _ (read_both-Safe _ _ (read-Safe k fuel) (read-Safe v fuel))
  read-Safe (dictionary k v) fuel =
      read_elements-Raises _
        (read_inside-Safe _ _ _ (read_both-Safe _ _ (read-Safe k fuel) (read-Safe v fuel))) fuel _ _
  read-Safe (Ty.struct t) fuel = read_inside-Safe _ _ _ (read-Safe t fuel)
  read-Safe unit fuel = λ d s. ok-Raises _
  read-Safe (pair t u) fuel = read_both-Safe _ _ (read-Safe t fuel) (read-Safe u fuel)
