-- ===== src/Message/Variant.antt =====
-- `Variant` of include/sdbus-c++/Types.h and src/Types.cpp: a value in a message of its own; with
-- `Message::seal` and `Message::rewind` of src/Message.cpp, and what the operators for `std::variant`
-- of include/sdbus-c++/Message.h do with the alternative that is held.
use sdbus_cpp.Prelude.{
  >>=-eq-ok, append-nil, ℕ, is_neg, errno_of, throw_error_if, ◌>>◌, List, [], ◌∷◌, ◌++◌, Result, ok,
  ◌>>=◌, ◌≡◌, ap, ◌∙◌, true, sym, append_assoc, append-nil,
}
use sdbus_cpp.Message.Types.{
  Ty, Container, Token, opening, closing, Value, signature_of, default_value,
}
use sdbus_cpp.Message.Api.{SdBusMessage, AppendLaws, ReadLaws}
use sdbus_cpp.Message.Write.{checked, begin_container, end_container, write}
use sdbus_cpp.Message.Reader.{Reader, enter, exit}
use sdbus_cpp.Message.Read.{read}
use sdbus_cpp.Message.Wire.{emit}
use sdbus_cpp.Message.WriteSound.{checked-inv, around-Appends, write-emit}
use sdbus_cpp.Message.ReadSound.{Reads, enter_item, exit_end}
use sdbus_cpp.Message.ReadArrays.{Readable}
use sdbus_cpp.Message.RoundTrip.{read-Reads}

module _ (bus : SdBusMessage) where
  -- Message::seal
  unfoldable pub seal : bus.Msg → Result bus.Msg
  seal m = checked bus "Failed to seal the message" (bus.seal m)

  -- Message::rewind
  unfoldable pub rewind : Reader bus → Result (Reader bus)
  rewind s =
      let (r, m) = bus.rewind s.msg in
      throw_error_if (is_neg r) "Failed to rewind the message" (errno_of r)
      >> ok (record s { msg = m })

  -- `operator<<(const std::variant<Elements...>&)`, for the alternative that is held.
  unfoldable pub write_alternative : (t : Ty) → Value t → bus.Msg → Result bus.Msg
  write_alternative t x m = do
    opened ← begin_container bus Container.variant (signature_of t) m
    filled ← write bus t x opened
    end_container bus Container.variant filled

  -- The constructor `Variant(const ValueType&)`, on the fresh message of the variant.
  unfoldable pub make_variant : (t : Ty) → Value t → bus.Msg → Result bus.Msg
  unfolding write_alternative seal
  make_variant t x m = write_alternative t x m >>= seal

  -- detail::deserialize_variant, for the alternative whose signature the contents have.
  unfoldable pub read_alternative : (t : Ty) → ℕ → Reader bus → Result (Value t × Reader bus)
  read_alternative t fuel s = do
    inside ← enter bus Container.variant (signature_of t) s
    (x, after) ← read bus t fuel (default_value t) inside
    left ← exit bus Container.variant after
    ok (x, left)

  -- Variant::get
  unfoldable pub get : (t : Ty) → ℕ → Reader bus → Result (Value t × Reader bus)
  unfolding rewind read_alternative
  get t fuel s = rewind s >>= read_alternative t fuel

-- The contents of a variant that holds the value.
abbrev pub variant_contents : (t : Ty) → Value t → List Token
variant_contents t x = opening Container.variant (signature_of t) ∷ (emit t x ++ closing ∷ [])

pub write_alternative-written :
    (bus : SdBusMessage) (laws : AppendLaws bus) (t : Ty) (x : Value t) (m m' : bus.Msg)
    → write_alternative bus t x m ≡ ok m'
    → laws.written m' ≡ laws.written m ++ variant_contents t x
unfolding write_alternative
write_alternative-written bus laws t x m m' h =
    around-Appends bus laws Container.variant (signature_of t) (emit t x) (write bus t x)
      (λ m₁ m₂ e. write-emit bus laws t x m₁ e) m m' h

seal-written :
    (bus : SdBusMessage) (laws : AppendLaws bus) (m m' : bus.Msg)
    → seal bus m ≡ ok m'
    → laws.written m' ≡ laws.written m
unfolding seal
seal-written bus laws m m' h =
    let (good, e) = checked-inv bus _ (bus.seal m) h in rw (← e) (laws.seal_lem m good)

pub make_variant-written :
    (bus : SdBusMessage) (laws : AppendLaws bus) (t : Ty) (x : Value t) (m m' : bus.Msg)
    → make_variant bus t x m ≡ ok m'
    → laws.written m' ≡ laws.written m ++ variant_contents t x
unfolding make_variant
make_variant-written bus laws t x m m' h =
    let (n, filled, sealed) = >>=-eq-ok (write_alternative bus t x m) (seal bus) h in
    seal-written bus laws n m' sealed ∙ write_alternative-written bus laws t x m n filled

-- A variant with that value in front is read, and passed.
pub read_alternative-Reads :
    (bus : SdBusMessage) (laws : ReadLaws bus) (t : Ty) (fuel : ℕ) (x : Value t)
    → Readable fuel t x
    → Reads bus laws (variant_contents t x) (read_alternative bus t fuel) x
unfolding read_alternative
read_alternative-Reads bus laws t fuel x h s ts here valid =
    let (s₁, e₁, after₁, valid₁, same₁) =
      enter_item bus laws Container.variant (signature_of t) s _ here valid in
    let (s₂, e₂, after₂, valid₂, same₂) =
      read-Reads bus laws t fuel x h s₁ (closing ∷ ts)
        (after₁ ∙ append_assoc (emit t x) (closing ∷ []) ts) valid₁ in
    let (s₃, e₃, after₃, valid₃, same₃) =
      exit_end bus laws Container.variant Container.variant (laws.containers s.msg) s₂ ts
        (same₂ ∙ same₁) after₂ valid₂ in
    (s₃, rw (e₁, ◌>>=◌, e₂, ◌>>=◌, e₃), after₃, valid₃, same₃)

-- A message with what was written to an empty one when a variant was made of a value.
pub made-contents :
    (bus : SdBusMessage) (append : AppendLaws bus) (t : Ty) (x : Value t) (m : bus.Msg)
    {m' : bus.Msg}
    → append.written m ≡ []
    → make_variant bus t x m ≡ ok m'
    → append.written m' ≡ variant_contents t x ++ []
made-contents bus append t x m {m'} empty made =
    make_variant-written bus append t x m m' made
    ∙ ap (λ ts. ts ++ variant_contents t x) empty
    ∙ sym (append-nil (variant_contents t x))

-- The message of a variant that holds the value, wherever it was read to, but not in a container.
pub get-contents :
    (bus : SdBusMessage) (laws : ReadLaws bus) (t : Ty) (fuel : ℕ) (x : Value t) (s : Reader bus)
    → Readable fuel t x
    → laws.containers s.msg ≡ []
    → laws.contents s.msg ≡ variant_contents t x ++ []
    → s.valid ≡ true
    → (s' : Reader bus) × (get bus t fuel s ≡ ok (x, s')) × (laws.rest s'.msg ≡ [])
unfolding get rewind
get-contents bus laws t fuel x s h outside same valid =
    let (rewound, here, out) = laws.rewind_lem s.msg outside in
    let (s', e, after, good, _) =
      read_alternative-Reads bus laws t fuel x h (record s { msg = (bus.rewind s.msg).1 }) []
        (here ∙ same) valid in
    (s', rw (rewound, get, rewind) e, after)
