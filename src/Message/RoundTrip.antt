-- ===== src/Message/RoundTrip.antt =====
-- Reading back what was written, for every type.
use sdbus_cpp.Prelude.{
  ℕ, true, false, List, [], ◌∷◌, ◌++◌, ok, ◌≡◌, refl, sym, ap, ◌∙◌, append_assoc, append-nil,
}
use sdbus_cpp.Message.Types.{
  Ty, basic, variant, dict_entry, dictionary, unit, pair, Container, Token, closing, Value,
  signature_of, default_value,
}
use sdbus_cpp.Message.Api.{SdBusMessage, AppendLaws, ReadLaws}
use sdbus_cpp.Message.Write.{write}
use sdbus_cpp.Message.Reader.{Reader}
use sdbus_cpp.Message.Read.{read_inside, read_both, read}
use sdbus_cpp.Message.Wire.{emit_entry, emit}
use sdbus_cpp.Message.ReadLoops.{
  read_elements-Reads, read_elements-Ends, read_variant-Reads, read_variant-Ends,
}
use sdbus_cpp.Message.WriteSound.{write-emit}
use sdbus_cpp.Message.ReadSound.{
  Reads, Ends, IsAtEnd, read_basic-Reads, read_basic-Ends, read_both-Reads, read_both-Ends,
  read_inside-Reads, read_inside-Ends,
}
use sdbus_cpp.Message.ReadArrays.{
  IsSolid, Readable, deserialize_array-Reads, deserialize_array-Ends,
}

module _ (bus : SdBusMessage) (laws : ReadLaws bus) where
  read-Ends : (t : Ty) (fuel : ℕ) → Ends bus laws (IsSolid t) (read bus t fuel (default_value t))
  unfolding read default_value
  read-Ends (basic b) fuel = read_basic-Ends bus laws b (default_value (basic b))
  read-Ends variant fuel = read_variant-Ends bus laws
  read-Ends (Ty.array t) fuel = deserialize_array-Ends bus laws t fuel
  read-Ends (dict_entry k v) fuel =
      read_inside-Ends bus laws Container.dict_entry (signature_of k ++ signature_of v)
        (read_both bus (read bus k fuel) (read bus v fuel)) (default_value k, default_value v)
  read-Ends (dictionary k v) fuel = read_elements-Ends bus laws fuel _ _ _ []
  read-Ends (Ty.struct t) fuel =
      read_inside-Ends bus laws Container.struct (signature_of t) (read bus t fuel)
        (default_value t)
  read-Ends unit fuel =
      λ s h. (tt, s, refl, refl, (λ solid. absurd solid), (λ invalid. invalid), refl)
  read-Ends (pair t u) fuel =
      read_both-Ends bus laws (read bus t fuel) (read bus u fuel) (default_value t)
        (default_value u) (read-Ends t fuel) (read-Ends u fuel)

  read_solid-Ends :
      (t : Ty) (fuel : ℕ) → IsSolid t → Ends bus laws (Unit {0}) (read bus t fuel (default_value t))
  read_solid-Ends t fuel solid s h =
      let (x, s', e, stays, ends, keeps, same) = read-Ends t fuel s h in
      (x, s', e, stays, (λ _. ends solid), keeps, same)

  read_entry-Reads :
      (k v : Ty) (fuel : ℕ) (a : Value k) (b : Value v)
      → Reads bus laws (emit k a) (read bus k fuel (default_value k)) a
      → Reads bus laws (emit v b) (read bus v fuel (default_value v)) b
      → Reads bus laws
          (emit_entry k v (emit k) (emit v) (a, b))
          (read_inside bus Container.dict_entry
            (signature_of k ++ signature_of v)
            (read_both bus (read bus k fuel) (read bus v fuel))
            (default_value k, default_value v))
          (a, b)
  read_entry-Reads k v fuel a b p q = rw (← append_assoc (emit k a) (emit v b) (closing ∷ [])) (
      read_inside-Reads bus laws Container.dict_entry (signature_of k ++ signature_of v)
        (emit k a ++ emit v b) (read_both bus (read bus k fuel) (read bus v fuel))
        (default_value k, default_value v) (a, b)
        (read_both-Reads bus laws (emit k a) (emit v b) (read bus k fuel) (read bus v fuel)
          (default_value k) a (default_value v) b p q))

  pub read-Reads :
      (t : Ty) (fuel : ℕ) (x : Value t)
      → Readable fuel t x
      → Reads bus laws (emit t x) (read bus t fuel (default_value t)) x
  unfolding read emit default_value
  read-Reads (basic b) fuel x h = read_basic-Reads bus laws b (default_value (basic b)) x
  read-Reads variant fuel ts h = read_variant-Reads bus laws ts h
  read-Reads (Ty.array t) fuel xs h =
      deserialize_array-Reads bus laws t fuel xs (read-Reads t fuel) (read_solid-Ends t fuel h.1)
        h.0 h.2
  read-Reads (dict_entry k v) fuel (a, b) h =
      read_entry-Reads k v fuel a b (read-Reads k fuel a h.0) (read-Reads v fuel b h.1)
  read-Reads (dictionary k v) fuel es h =
      read_elements-Reads bus laws fuel (signature_of (dict_entry k v))
        (emit_entry k v (emit k) (emit v)) _ _
        (λ (a, b) p.
          read_entry-Reads k v fuel a b (read-Reads k fuel a p.0) (read-Reads v fuel b p.1))
        (read_inside-Ends bus laws Container.dict_entry (signature_of k ++ signature_of v)
          (read_both bus (read bus k fuel) (read bus v fuel)) (default_value k, default_value v))
        es h.0 h.1
  read-Reads (Ty.struct t) fuel x h =
      read_inside-Reads bus laws Container.struct (signature_of t) (emit t x) (read bus t fuel)
        (default_value t) x (read-Reads t fuel x h)
  read-Reads unit fuel x h = λ s ts here valid. (s, refl, here, valid, refl)
  read-Reads (pair t u) fuel (a, b) h =
      read_both-Reads bus laws (emit t a) (emit u b) (read bus t fuel) (read bus u fuel)
        (default_value t) a (default_value u) b (read-Reads t fuel a h.0) (read-Reads u fuel b h.1)

-- Reading a value back from its wire form succeeds with that value, moves past the form and leaves
-- the message valid and in the same container, whatever follows: for every type, if the loops have enough fuel, the variants
-- in the value hold a value and no array has elements without a signature.
pub read-emit :
    (bus : SdBusMessage) (laws : ReadLaws bus) (t : Ty) (fuel : ℕ) (x : Value t) (s : Reader bus)
    (ts : List Token)
    → Readable fuel t x
    → laws.rest s.msg ≡ emit t x ++ ts
    → s.valid ≡ true
    → (s' : Reader bus) × (read bus t fuel (default_value t) s ≡ ok (x, s'))
      × (laws.rest s'.msg ≡ ts)
      × (s'.valid ≡ true)
      × (laws.containers s'.msg ≡ laws.containers s.msg)
read-emit bus laws t fuel x s ts h here valid = read-Reads bus laws t fuel x h s ts here valid

-- At the end of an array, reading a value of a type with a nonempty signature succeeds without
-- moving and clears the message's validity: the signal that ends every loop over elements.
pub read_at_end :
    (bus : SdBusMessage) (laws : ReadLaws bus) (t : Ty) (fuel : ℕ) (s : Reader bus)
    → IsSolid t
    → IsAtEnd bus laws s.msg
    → (x : Value t) × (s' : Reader bus) × (read bus t fuel (default_value t) s ≡ ok (x, s'))
      × (laws.rest s'.msg ≡ laws.rest s.msg)
      × (s'.valid ≡ false)
      × (laws.containers s'.msg ≡ laws.containers s.msg)
read_at_end bus laws t fuel s solid h =
    let (x, s', e, stays, ends, _, same) = read-Ends bus laws t fuel s h in
    (x, s', e, stays, ends solid, same)

pub write-read :
    (bus : SdBusMessage) (append : AppendLaws bus) (laws : ReadLaws bus) (t : Ty) (fuel : ℕ)
    (x : Value t) (m : bus.Msg) {m' : bus.Msg} (s : Reader bus)
    → append.written m ≡ []
    → write bus t x m ≡ ok m'
    → laws.rest s.msg ≡ append.written m'
    → s.valid ≡ true
    → Readable fuel t x
    → (s' : Reader bus) × (read bus t fuel (default_value t) s ≡ ok (x, s'))
      × (laws.rest s'.msg ≡ [])
write-read bus append laws t fuel x m s empty done same valid h =
    let here =
      same
      ∙ write-emit bus append t x m done
      ∙ ap (λ ts. ts ++ emit t x) empty
      ∙ sym (append-nil (emit t x)) in
    let (s', e, after, _, _) = read-emit bus laws t fuel x s [] h here valid in (s', e, after)
