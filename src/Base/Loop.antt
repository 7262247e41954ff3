-- ===== src/Base/Loop.antt =====
-- Results of decoding and the loop `for <test> { read; if err return; append }` that every set
-- decoder of decoders/netflow is.
use Prim.Native.Nat.{ℕ, zero, suc, ◌≤◌, ◌<◌}
use mathlib.Core.Path.{◌≡◌, refl}
use mathlib.Core.Logic.{◌≢◌, ◌⊎◌, inl, inr}
use mathlib.Core.Bool.{Bool, true, false}
use mathlib.Core.List.{List, [], ◌∷◌, ◌++◌, append_assoc, append-nil}
use native.Mathlib.Omega.{arith}
use goflow.Base.Tests.{Bool-cases}
use goflow.Base.Lists.{length, concat_map, All}

-- The errors of the decoders and encoders. The texts that `fmt.Errorf` puts round an error are
-- left out; `FlowError`, `RecordError` and `DecoderError` keep their place, the `FlowError` of
-- decoders/sflow as `sample_error`. `out_of_fuel` is no Go error: it would
-- mean that a loop of the model had too little fuel.
pub data Error : Type 0 where
  unexpected_eof negative_length empty_record no_templates : Error
  template_not_found id_error store_error out_of_fuel : Error
  unknown_version : ℕ → Error
  flow_error : ℕ → ℕ → ℕ → Error → Error
  decoder_error : Error → Error
  invalid_type : Error
  unknown_ip_version unknown_format too_large invalid_length : ℕ → Error
  truncated : ℕ → ℕ → Error
  exceeds : ℕ → ℕ → ℕ → Error
  record_error : ℕ → Error → Error
  sample_error : ℕ → ℕ → Error → Error
  joined : Error → Error → Error

pub data Result {ℓ} (A : Type ℓ) : Type ℓ where
  ok : A → Result A
  err : Error → Result A

-- To split on a computed result and keep the equation.
pub Result-cases {ℓ} :
    {A : Type ℓ} (r : Result A) → ((a : A) × (r ≡ ok a)) ⊎ ((e : Error) × (r ≡ err e))
Result-cases (ok a) = inl (a, refl)
Result-cases (err e) = inr (e, refl)

-- A read takes bytes from the front of the buffer. Every caller in the program returns the error of
-- a failed read without a further look at that buffer, so an error carries no buffer.
abbrev pub Read {ℓ} : Type ℓ → Type ℓ
Read A = List ℕ → Result (A × List ℕ)

abbrev continue {ℓ κ} :
    {A : Type ℓ} {B : Type κ} → Result (A × List ℕ) → (A → Read B) → Result (B × List ℕ)
continue (ok (a, b)) f = f a b
continue (err e) f = err e

infixl 5 ◌>>=◌
abbrev pub ◌>>=◌ {ℓ κ} : {A : Type ℓ} {B : Type κ} → Read A → (A → Read B) → Read B
◌>>=◌ m f b = continue (m b) f

abbrev pub pure {ℓ} : {A : Type ℓ} → A → Read A
pure a b = ok (a, b)

module _ {ℓ κ} {A : Type ℓ} {B : Type κ} where
  continue-eq-ok :
      (r : Result (A × List ℕ)) (f : A → Read B) {v : B} {rest : List ℕ}
      → continue r f ≡ ok (v, rest)
      → (a : A) × (b : List ℕ) × (r ≡ ok (a, b)) × (f a b ≡ ok (v, rest))
  continue-eq-ok (ok (a, b)) f h = (a, b, refl, h)
  continue-eq-ok (err e) f h = cc

  -- Inversion of a successful read in two steps.
  pub read_bind-eq-ok :
      (m : Read A) (f : A → Read B) (b : List ℕ) {v : B} {rest : List ℕ}
      → (m >>= f) b ≡ ok (v, rest)
      → (a : A) × (b' : List ℕ) × (m b ≡ ok (a, b')) × (f a b' ≡ ok (v, rest))
  read_bind-eq-ok m f b h = continue-eq-ok (m b) f h

  continue-ne-err :
      (r : Result (A × List ℕ)) (f : A → Read B) (e : Error)
      → r ≢ err e
      → ((a : A) (b : List ℕ) → f a b ≢ err e)
      → continue r f ≢ err e
  continue-ne-err (ok (a, b)) f e hr hf q = hf a b q
  continue-ne-err (err x) f e hr hf q = hr (cc)

  -- An error that neither step reports is not reported by the two steps.
  pub read_bind-ne-err :
      (m : Read A) (f : A → Read B) (b : List ℕ) (e : Error)
      → m b ≢ err e
      → ((a : A) (b' : List ℕ) → f a b' ≢ err e)
      → (m >>= f) b ≢ err e
  read_bind-ne-err m f b e hm hf = continue-ne-err (m b) f e hm hf

-- Go's `return records, err`: the records decoded so far, alone or with an error.
pub data Outcome {ℓ} (A : Type ℓ) : Type ℓ where
  done : List A → Outcome A
  failed : List A → Error → Outcome A

-- What a round does with the result of its read; the first argument is the rest of the loop.
abbrev after_read {ℓ} :
    {A : Type ℓ} → (List A → List ℕ → Outcome A) → List A → Result (A × List ℕ) → Outcome A
after_read loop acc (ok (a, rest)) = loop (acc ++ a ∷ []) rest
after_read loop acc (err e) = failed acc e

abbrev round {ℓ} : {A : Type ℓ} → Bool → Outcome A → List A → Outcome A
round true next acc = next
round false next acc = done acc

module _ {ℓ} {A : Type ℓ} (more : List ℕ → Bool) (read : Read A) where
  -- One round takes a byte at least (see `repeat_total`), so the length of the buffer is enough fuel.
  unfoldable pub repeat : ℕ → List A → List ℕ → Outcome A
  repeat zero acc b = round (more b) (failed acc out_of_fuel) acc
  repeat (suc n) acc b =
      let next = after_read (λ acc' rest. repeat n acc' rest) acc (read b) in
      round (more b) next acc

  after_read-ne :
      (loop : List A → List ℕ → Outcome A) (acc acc' : List A) (r : Result (A × List ℕ))
      → r ≢ err out_of_fuel
      → ((a : A) (rest : List ℕ)
          → r ≡ ok (a, rest)
          → loop (acc ++ a ∷ []) rest ≢ failed acc' out_of_fuel)
      → after_read loop acc r ≢ failed acc' out_of_fuel
  after_read-ne loop acc acc' (ok (a, rest)) clean h e = h a rest refl e
  after_read-ne loop acc acc' (err x) clean h e = clean (cc)

  -- With the length of the buffer as fuel the loop ends by its test or by an error of a read: each
  -- read that succeeds must shorten the buffer, and the test must fail at the end of the buffer.
  pub repeat_total :
      ((b : List ℕ) (a : A) (rest : List ℕ)
        → more b ≡ true
        → read b ≡ ok (a, rest)
        → length rest < length b)
      → ((b : List ℕ) → read b ≢ err out_of_fuel)
      → more [] ≡ false
      → (n : ℕ) (acc : List A) (b : List ℕ) → length b ≤ n
      → (acc' : List A) → repeat n acc b ≢ failed acc' out_of_fuel
  unfolding repeat
  repeat_total shrinks clean stop zero acc [] h acc' e = ground arith
  repeat_total shrinks clean stop zero acc (x ∷ b) h acc' e = absurd (omega arith)
  repeat_total shrinks clean stop (suc n) acc b h acc' e = elim (Bool-cases (more b)) [
    | inl on ↦
        after_read-ne (λ acc' rest. repeat n acc' rest) acc acc' (read b) (clean b)
          (λ a rest q.
            repeat_total shrinks clean stop n (acc ++ a ∷ []) rest
              (let p = shrinks b a rest on q in omega arith) acc')
          (rw on at e)
    | inr off ↦ ground arith
  ]

  -- Encodings that are read back one by one, with a tail at which the loop stops, are read back
  -- together.
  pub repeat_encoded :
      (encode : A → List ℕ) (tail : List ℕ)
      → more tail ≡ false
      → (n : ℕ) (acc xs : List A) → length xs ≤ n
      → All
          (λ x.
            (rest : List ℕ)
            → (more (encode x ++ rest) ≡ true) × (read (encode x ++ rest) ≡ ok (x, rest)))
          xs
      → repeat n acc (concat_map encode xs ++ tail) ≡ done (acc ++ xs)
  unfolding repeat
  repeat_encoded encode tail stop zero acc [] h good = rw (stop, append-nil)
  repeat_encoded encode tail stop zero acc (x ∷ xs) h good = absurd (omega arith)
  repeat_encoded encode tail stop (suc n) acc [] h good = rw (stop, append-nil)
  repeat_encoded encode tail stop (suc n) acc (x ∷ xs) h good = rw (
    append_assoc (encode x),
    (good.0 (concat_map encode xs ++ tail)).0,
    (good.0 (concat_map encode xs ++ tail)).1,
    repeat_encoded encode tail stop n (acc ++ x ∷ []) xs (omega arith) good.1,
    append_assoc,
  )
