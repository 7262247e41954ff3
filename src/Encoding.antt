-- ===== src/Encoding.antt =====
-- The encoders of decoders/netflow and decoders/sflow: their errors, with the numbers that tell them
-- apart, the chain of fallible steps, and the loop over elements that each write bytes.
use goflow.Base.{ℕ, List, [], ◌∷◌, ◌++◌, Bool, true, false, ◌≡◌, refl, concat_map, All}

pub data EncodeError : Type 0 where
  unsupported_packet unsupported_version unsupported_flow_set unsupported_value invalid_flow_set :
      EncodeError
  invalid_id : ℕ → EncodeError
  field_count_mismatch scope_mismatch option_mismatch : EncodeError
  invalid_template index_out_of_range : EncodeError
  variable_length_exceeds length_mismatch : EncodeError
  set_length_exceeds message_length_exceeds invariant_failed : EncodeError
  mac_length_mismatch ip_length_mismatch as_path_mismatch communities_mismatch : EncodeError
  samples_count_mismatch records_count_mismatch format_not_set unsupported_record : EncodeError
  invalid_ip_length invalid_format unknown_sample_format : ℕ → EncodeError

pub data EncodeResult {ℓ} (A : Type ℓ) : Type ℓ where
  ok : A → EncodeResult A
  err : EncodeError → EncodeResult A

infixl 5 ◌>>=◌ ◌>>◌
abbrev pub ◌>>=◌ {ℓ κ} :
    {A : Type ℓ} {B : Type κ} → EncodeResult A → (A → EncodeResult B) → EncodeResult B
ok a >>= f = f a
err e >>= f = err e

abbrev pub ◌>>◌ {ℓ} : {B : Type ℓ} → EncodeResult (Unit {0}) → EncodeResult B → EncodeResult B
m >> k = m >>= λ _. k

-- `if !b { return …, e }`
abbrev pub guard : Bool → EncodeError → EncodeResult (Unit {0})
guard true e = ok tt
guard false e = err e

-- The two steps of a chain that succeeds.
pub bind-eq-ok {ℓ κ} :
    {A : Type ℓ} {B : Type κ} (m : EncodeResult A) (f : A → EncodeResult B) (b : B)
    → (m >>= f) ≡ ok b
    → (a : A) × (m ≡ ok a) × (f a ≡ ok b)
bind-eq-ok (ok a) f b h = (a, refl, h)
bind-eq-ok (err e) f b h = cc

pub guard-eq-ok {ℓ} :
    {B : Type ℓ} (c : Bool) (e : EncodeError) (k : EncodeResult B) (b : B)
    → (guard c e >> k) ≡ ok b
    → (c ≡ true) × (k ≡ ok b)
guard-eq-ok true e k b h = (refl, h)
guard-eq-ok false e k b h = cc

-- A loop that appends the bytes of each element to the buffer and returns at the first error.
unfoldable pub encode_all {ℓ} :
    {A : Type ℓ} → (A → EncodeResult (List ℕ)) → List A → EncodeResult (List ℕ)
encode_all encode [] = ok []
encode_all encode (x ∷ xs) = do bytes ← encode x; rest ← encode_all encode xs; ok (bytes ++ rest)

-- Where every element has an encoding, the loop writes them one after the other.
pub encode_all-eq-concat_map {ℓ} :
    {A : Type ℓ} (encode : A → EncodeResult (List ℕ)) (bytes : A → List ℕ) (xs : List A)
    → All (λ x. encode x ≡ ok (bytes x)) xs
    → encode_all encode xs ≡ ok (concat_map bytes xs)
unfolding encode_all
encode_all-eq-concat_map encode bytes [] h = refl
encode_all-eq-concat_map encode bytes (x ∷ xs) h =
    rw (h.0, encode_all-eq-concat_map encode bytes xs h.1)
