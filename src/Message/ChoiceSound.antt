-- ===== src/Message/ChoiceSound.antt =====
-- The signature of a variant's contents decides which type is read.
use sdbus_cpp.Prelude.{
  append-nil, ℕ, true, false, ◌==◌, ==_iff, both_true, Bool-cases, some, Result, List, [], ◌∷◌,
  ◌++◌, ok, throw, errno_error, ◌>>=◌, ◌≡◌, ◌≢◌, refl, sym, subst, ap, ◌∙◌, inl, inr, ◌⊎◌, All,
  arith,
}
use sdbus_cpp.Message.Types.{Ty, Container, Token, Value, signature_of}
use sdbus_cpp.Message.Api.{SdBusMessage, AppendLaws, ReadLaws}
use sdbus_cpp.Message.Reader.{Reader}
use sdbus_cpp.Message.ReadArrays.{Readable}
use sdbus_cpp.Message.Variant.{
  write_alternative, write_alternative-written, variant_contents, read_alternative-Reads,
}
use sdbus_cpp.Message.Choice.{same_text, peek_type, with_contents, choose, read_choice, no_match}

same_text_refl : (a : List ℕ) → same_text a a ≡ true
unfolding same_text
same_text_refl [] = refl
same_text_refl (x ∷ xs) = rw (same_text_refl xs) (ground arith)

same_text-eq : (a b : List ℕ) → same_text a b ≡ true → a ≡ b
unfolding same_text
same_text-eq [] [] h = refl
same_text-eq [] (b ∷ bs) h = absurd (cc h)
same_text-eq (a ∷ as') [] h = absurd (cc h)
same_text-eq (a ∷ as') (b ∷ bs) h =
    let (first, others) = both_true (a == b) (same_text as' bs) h in
    let e = (==_iff a b).0 first in let es = same_text-eq as' bs others in cc

same_text-ne : (a b : List ℕ) → a ≢ b → same_text b a ≡ false
same_text-ne a b h = elim (Bool-cases (same_text b a)) [
  | inl e ↦ absurd (h (sym (same_text-eq b a e)))
  | inr e ↦ e
]

module _ (bus : SdBusMessage) (laws : ReadLaws bus) (t : Ty) (x : Value t) (ts : List Token) where
  with_contents-variant {ℓ} :
      {A : Type ℓ} (f : List ℕ → Result A) (s : Reader bus)
      → laws.rest s.msg ≡ variant_contents t x ++ ts
      → with_contents bus f s ≡ some (f (signature_of t))
  unfolding with_contents peek_type
  with_contents-variant f s here = rw (
    laws.peek_type_item Container.variant (signature_of t) s.msg _ here,
    peek_type,
    with_contents,
  )

  choose-variant :
      (us : List Ty) (fuel : ℕ) (s : Reader bus)
      → Readable fuel t x
      → All (λ u. (u ≡ t) ⊎ (signature_of u ≢ signature_of t)) us
      → laws.rest s.msg ≡ variant_contents t x ++ ts
      → s.valid ≡ true
      → ((s' : Reader bus) × (choose bus us fuel s (signature_of t) ≡ ok ((t, x), s'))
          × (laws.rest s'.msg ≡ ts)
          × (s'.valid ≡ true))
        ⊎ (All (λ u. signature_of u ≢ signature_of t) us
            × (choose bus us fuel s (signature_of t) ≡ throw (errno_error 22 no_match)))
  unfolding choose
  choose-variant [] fuel s h all here valid = inr (tt, refl)
  choose-variant (u ∷ us) fuel s h (inl same, all) here valid =
      let (s', e, after, good, _) = read_alternative-Reads bus laws t fuel x h s ts here valid in
      inl (
        s',
        subst (λ v. choose bus (v ∷ us) fuel s (signature_of t) ≡ ok ((t, x), s')) (sym same)
            (rw (same_text_refl (signature_of t), choose, e, ◌>>=◌)),
        after,
        good,
      )
  choose-variant (u ∷ us) fuel s h (inr other, all) here valid =
      let skip = same_text-ne (signature_of u) (signature_of t) other in
      elim (choose-variant us fuel s h all here valid) [
        | inl (s', e, after, good) ↦ inl (s', rw (skip, choose) e, after, good)
        | inr (others, e) ↦ inr ((other, others), rw (skip, choose) e)
      ]

-- A `std::variant` that was written while it held a value is read back as that alternative with
-- that value, and nothing is left over; or, if no alternative of the destination has the value's
-- signature, the exception for that is thrown. No alternative but the value's own type may have its
-- signature, the loops have enough fuel, the variants in the value hold a value, and no array in it
-- has elements without a signature.
pub read_choice-write_alternative :
    (bus : SdBusMessage) (append : AppendLaws bus) (laws : ReadLaws bus) (t : Ty) (us : List Ty)
    (fuel : ℕ) (x : Value t) (m : bus.Msg) {m' : bus.Msg} (s : Reader bus)
    → append.written m ≡ []
    → write_alternative bus t x m ≡ ok m'
    → laws.rest s.msg ≡ append.written m'
    → s.valid ≡ true
    → Readable fuel t x
    → All (λ u. (u ≡ t) ⊎ (signature_of u ≢ signature_of t)) us
    → ((s' : Reader bus) × (read_choice bus us fuel s ≡ some (ok ((t, x), s')))
        × (laws.rest s'.msg ≡ []))
      ⊎ (All (λ u. signature_of u ≢ signature_of t) us
          × (read_choice bus us fuel s ≡ some (throw (errno_error 22 no_match))))
unfolding read_choice
read_choice-write_alternative bus append laws t us fuel x m {m'} s empty made same valid h all =
    let here =
      same
      ∙ write_alternative-written bus append t x m m' made
      ∙ ap (λ ts. ts ++ variant_contents t x) empty
      ∙ sym (append-nil (variant_contents t x)) in
    let peeked = with_contents-variant bus laws t x [] (choose bus us fuel s) s here in
    elim (choose-variant bus laws t x [] us fuel s h all here valid) [
      | inl (s', e, after, good) ↦ inl (s', peeked ∙ ap some e, after)
      | inr (others, e) ↦ inr (others, peeked ∙ ap some e)
    ]
