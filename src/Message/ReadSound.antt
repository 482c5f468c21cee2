-- ===== src/Message/ReadSound.antt =====
-- What deserialization makes of the contents that serialization wrote: the steps.
use sdbus_cpp.Prelude.{
  ℕ, true, false, none, some, List, [], ◌∷◌, ◌++◌, map, Result, ok, ◌>>=◌, ◌≡◌, refl, ◌∙◌, inl, inr,
  ◌⊎◌, append_assoc,
}
use sdbus_cpp.Message.Types.{
  BasicType, basic, Container, Token, opening, closing, Carrier, default_value,
}
use sdbus_cpp.Message.Api.{SdBusMessage, ReadLaws}
use sdbus_cpp.Message.Write.{to_payload}
use sdbus_cpp.Message.Reader.{Reader, read_basic, from_payload, from_payloads, enter, exit}
use sdbus_cpp.Message.Read.{read_inside, read_both}
use sdbus_cpp.Message.Wire.{emit}

-- A basic value survives its wire form.
pub from_payload-to_payload :
    (b : BasicType) (d x : Carrier b) → from_payload b d (some (to_payload b x)) ≡ x
unfolding from_payload to_payload
from_payload-to_payload BasicType.boolean d true = refl
from_payload-to_payload BasicType.boolean d false = refl
from_payload-to_payload _ d x = refl

pub from_payloads-to_payloads :
    (b : BasicType) (xs : List (Carrier b)) → from_payloads (basic b) (map (to_payload b) xs) ≡ xs
unfolding from_payloads
from_payloads-to_payloads b [] = refl
from_payloads-to_payloads b (x ∷ xs) =
    rw (from_payload-to_payload b (default_value (basic b)) x, from_payloads-to_payloads b xs)

module _ (bus : SdBusMessage) (laws : ReadLaws bus) where
  -- The step takes these tokens off a valid message and gives this value.
  abbrev pub Reads {ℓ} :
      {A : Type ℓ} → List Token → (Reader bus → Result (A × Reader bus)) → A → Type ℓ
  Reads xs f x =
      (s : Reader bus) (ts : List Token)
      → laws.rest s.msg ≡ xs ++ ts
      → s.valid ≡ true
      → (s' : Reader bus) × (f s ≡ ok (x, s'))
        × (laws.rest s'.msg ≡ ts)
        × (s'.valid ≡ true)
        × (laws.containers s'.msg ≡ laws.containers s.msg)

  -- The message is inside an array, at its end.
  abbrev pub IsAtEnd : bus.Msg → Type 0
  IsAtEnd m =
      (cs : List Container) × (ts : List Token) × (laws.containers m ≡ Container.array ∷ cs)
      × (laws.rest m ≡ closing ∷ ts)

  -- At the end of an array the step succeeds and stays there. If it reads anything at all, the
  -- message turns invalid, and an invalid message stays so.
  abbrev pub Ends {ℓ} : {A : Type ℓ} → Type 0 → (Reader bus → Result (A × Reader bus)) → Type ℓ
  Ends {A = A} P f =
      (s : Reader bus)
      → IsAtEnd s.msg
      → (x : A) × (s' : Reader bus) × (f s ≡ ok (x, s'))
        × (laws.rest s'.msg ≡ laws.rest s.msg)
        × (P → s'.valid ≡ false)
        × (s.valid ≡ false → s'.valid ≡ false)
        × (laws.containers s'.msg ≡ laws.containers s.msg)

  pub read_basic-Reads :
      (b : BasicType) (d x : Carrier b) → Reads (emit (basic b) x) (read_basic bus b d) x
  unfolding read_basic emit
  read_basic-Reads b d x s ts here valid =
      let (r, p, after, same) = laws.read_basic_item b (to_payload b x) s.msg ts here in
      (
        record { msg = (bus.read_basic b s.msg).2; valid = true },
        rw (r, p, valid, from_payload-to_payload b d x),
        after,
        refl,
        same,
      )

  pub read_basic-Ends : (b : BasicType) (d : Carrier b) → Ends (Unit {0}) (read_basic bus b d)
  unfolding read_basic
  read_basic-Ends b d s (cs, ts, inside, here) =
      let (r, p, after, same) = laws.read_basic_end b s.msg cs ts inside here in
      (
        from_payload b d none,
        record { msg = (bus.read_basic b s.msg).2; valid = false },
        rw (r, p),
        after,
        λ _. refl,
        λ _. refl,
        same,
      )

  pub read_both-Reads {ℓ κ} :
      {A : Type ℓ} {B : Type κ} (xs ys : List Token) (f : A → Reader bus → Result (A × Reader bus))
      (g : B → Reader bus → Result (B × Reader bus)) (d x : A) (e y : B)
      → Reads xs (f d) x
      → Reads ys (g e) y
      → Reads (xs ++ ys) (read_both bus f g (d, e)) (x, y)
  read_both-Reads xs ys f g d x e y p q s ts here valid =
      let (s₁, e₁, after₁, valid₁, same₁) = p s (ys ++ ts) (here ∙ append_assoc xs ys ts) valid in
      let (s₂, e₂, after₂, valid₂, same₂) = q s₁ ts after₁ valid₁ in
      (s₂, rw (e₁, ◌>>=◌, e₂), after₂, valid₂, same₂ ∙ same₁)

  pub read_both-Ends {ℓ κ} :
      {A : Type ℓ} {B : Type κ} {P Q : Type 0} (f : A → Reader bus → Result (A × Reader bus))
      (g : B → Reader bus → Result (B × Reader bus)) (d : A) (e : B)
      → Ends P (f d)
      → Ends Q (g e)
      → Ends (P ⊎ Q) (read_both bus f g (d, e))
  read_both-Ends f g d e p q s (cs, ts, inside, here) =
      let (x, s₁, e₁, stays₁, solid₁, keeps₁, same₁) = p s (cs, ts, inside, here) in
      let (y, s₂, e₂, stays₂, solid₂, keeps₂, same₂) =
        q s₁ (cs, ts, same₁ ∙ inside, stays₁ ∙ here) in
      (
        (x, y),
        s₂,
        rw (e₁, ◌>>=◌, e₂),
        stays₂ ∙ stays₁,
        (elim [ inl a ↦ keeps₂ (solid₁ a) | inr b ↦ solid₂ b ]),
        (λ v. keeps₂ (keeps₁ v)),
        same₂ ∙ same₁,
      )

  pub enter_item :
      (c : Container) (sig : List ℕ) (s : Reader bus) (ts : List Token)
      → laws.rest s.msg ≡ opening c sig ∷ ts
      → s.valid ≡ true
      → (s' : Reader bus) × (enter bus c sig s ≡ ok s')
        × (laws.rest s'.msg ≡ ts)
        × (s'.valid ≡ true)
        × (laws.containers s'.msg ≡ c ∷ laws.containers s.msg)
  unfolding enter
  enter_item c sig s ts here valid =
      let (r, after, inside) = laws.enter_container_item c sig s.msg ts here in
      (
        record { msg = (bus.enter_container c sig s.msg).1; valid = true },
        rw (r, valid),
        after,
        refl,
        inside,
      )

  pub enter_end :
      (c : Container) (sig : List ℕ) (s : Reader bus)
      → IsAtEnd s.msg
      → (s' : Reader bus) × (enter bus c sig s ≡ ok s')
        × (laws.rest s'.msg ≡ laws.rest s.msg)
        × (s'.valid ≡ false)
        × (laws.containers s'.msg ≡ laws.containers s.msg)
  unfolding enter
  enter_end c sig s (cs, ts, inside, here) =
      let (r, after, same) = laws.enter_container_end c sig s.msg cs ts inside here in
      (record { msg = (bus.enter_container c sig s.msg).1; valid = false }, rw r, after, refl, same)

  pub exit_end :
      (c d : Container) (cs : List Container) (s : Reader bus) (ts : List Token)
      → laws.containers s.msg ≡ d ∷ cs
      → laws.rest s.msg ≡ closing ∷ ts
      → s.valid ≡ true
      → (s' : Reader bus) × (exit bus c s ≡ ok s')
        × (laws.rest s'.msg ≡ ts)
        × (s'.valid ≡ true)
        × (laws.containers s'.msg ≡ cs)
  unfolding exit
  exit_end c d cs s ts inside here valid =
      let (r, after, same) = laws.exit_container_end s.msg d cs ts inside here in
      (record s { msg = (bus.exit_container s.msg).1 }, rw r, after, valid, same)

  pub read_inside-Reads {ℓ} :
      {A : Type ℓ} (c : Container) (sig : List ℕ) (xs : List Token)
      (body : A → Reader bus → Result (A × Reader bus)) (d x : A)
      → Reads xs (body d) x
      → Reads (opening c sig ∷ (xs ++ closing ∷ [])) (read_inside bus c sig body d) x
  unfolding read_inside
  read_inside-Reads c sig xs body d x p s ts here valid =
      let (s₁, e₁, after₁, valid₁, same₁) =
        enter_item c sig s ((xs ++ closing ∷ []) ++ ts) here valid in
      let (s₂, e₂, after₂, valid₂, same₂) =
        p s₁ (closing ∷ ts) (after₁ ∙ append_assoc xs (closing ∷ []) ts) valid₁ in
      let (s₃, e₃, after₃, valid₃, same₃) =
        exit_end c c (laws.containers s.msg) s₂ ts (same₂ ∙ same₁) after₂ valid₂ in
      (s₃, rw (e₁, ◌>>=◌, valid₁, e₂, ◌>>=◌, e₃), after₃, valid₃, same₃)

  pub read_inside-Ends {ℓ} :
      {A : Type ℓ} (c : Container) (sig : List ℕ) (body : A → Reader bus → Result (A × Reader bus))
      (d : A)
      → Ends (Unit {0}) (read_inside bus c sig body d)
  unfolding read_inside
  read_inside-Ends c sig body d s h =
      let (s₁, e₁, stays, invalid, same) = enter_end c sig s h in
      (d, s₁, rw (e₁, ◌>>=◌, invalid), stays, (λ _. invalid), (λ _. invalid), same)
