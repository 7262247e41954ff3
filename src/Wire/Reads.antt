-- ===== src/Wire/Reads.antt =====
-- How many bytes a read of utils.go takes.
use goflow.Base.{
  ℕ, ◌+◌, ◌≤◌, ◌≡◌, ◌≢◌, List, Read, ok, err, out_of_fuel, ◌>>=◌, pure, read_bind-eq-ok,
  read_bind-ne-err, length, length-drop, length-take, arith, refl, take, drop, leb, leb→le,
  Bool-cases, inl, inr, ◌<◌, unexpected_eof,
}
use goflow.Wire.{read_uint, read_exactly, big_endian}

-- A successful run of `m` takes at least k bytes, and `m` never reports a lack of fuel.
pub record Takes {ℓ} {A : Type ℓ} (k : ℕ) (m : Read A) : Type ℓ where
  pub least : (b : List ℕ) (a : A) (rest : List ℕ) → m b ≡ ok (a, rest) → length rest + k ≤ length b
  pub clean : (b : List ℕ) → m b ≢ err out_of_fuel

pub read_uint-Takes : (n : ℕ) → Takes n (read_uint n)
unfolding read_uint
read_uint-Takes n = record {
  least = λ b a rest h. ground (arith, length-drop n b, length-take n b);
  clean = λ b h. ground arith;
}

pub read_exactly-Takes : (n : ℕ) → Takes n (read_exactly n)
unfolding read_exactly
read_exactly-Takes n = record {
  least = λ b a rest h. ground (arith, length-drop n b, length-take n b);
  clean = λ b h. ground arith;
}

module _ {ℓ} {A : Type ℓ} where
  pub pure-Takes : (a : A) → Takes 0 (pure a)
  pure-Takes a = record { least = λ b a' rest h. ground arith; clean = λ b h. cc }

  pub Takes-weaken : {j k : ℕ} {m : Read A} → Takes k m → j ≤ k → Takes j m
  Takes-weaken t h = record {
    least = λ b a rest e. omega (arith, t.least b a rest e);
    clean = t.clean;
  }

module _ {ℓ κ} {A : Type ℓ} {B : Type κ} where
  pub bind-Takes :
      (j k : ℕ) (m : Read A) (f : A → Read B)
      → Takes j m
      → ((a : A) → Takes k (f a))
      → Takes (j + k) (m >>= f)
  bind-Takes j k m f hm hf = record {
    least = λ b v rest h.
        let (a, b', p, q) = read_bind-eq-ok m f b h in
        omega (arith, hm.least b a b' p, (hf a).least b' v rest q);
    clean = λ b. read_bind-ne-err m f b out_of_fuel (hm.clean b) (λ a b'. (hf a).clean b');
  }

-- `m` succeeds on every buffer of k bytes or more, and takes k bytes; on a shorter one it fails.
pub record Exactly {ℓ} {A : Type ℓ} (k : ℕ) (m : Read A) : Type ℓ where
  pub run :
      (b : List ℕ)
      → k ≤ length b
      → (a : A) × (rest : List ℕ) × (m b ≡ ok (a, rest)) × (length rest + k ≡ length b)
  pub short : (b : List ℕ) → length b < k → m b ≡ err unexpected_eof

pub read_uint-Exactly : (n : ℕ) → Exactly n (read_uint n)
unfolding read_uint
read_uint-Exactly n = record {
  run = λ b h. (
    big_endian 0 (take n b),
    drop n b,
    ground (arith, length-take n b),
    omega (arith, length-drop n b),
  );
  short = λ b h. ground (arith, length-take n b);
}

pub pure-Exactly {ℓ} : {A : Type ℓ} (a : A) → Exactly 0 (pure a)
pure-Exactly a = record {
  run = λ b h. (a, b, refl, omega arith);
  short = λ b h. absurd (omega arith);
}

module _ {ℓ κ} {A : Type ℓ} {B : Type κ} where
  pub bind-Exactly :
      (j k : ℕ) (m : Read A) (f : A → Read B)
      → Exactly j m
      → ((a : A) → Exactly k (f a))
      → Exactly (j + k) (m >>= f)
  bind-Exactly j k m f hm hf = record {
    run = λ b h.
        let (a, b', p, q) = hm.run b (omega arith) in
        let (v, rest, s, t) = (hf a).run b' (omega arith) in (v, rest, rw p s, omega arith);
    short = λ b h. elim (Bool-cases (leb j (length b))) [
      | inl enough ↦
          let (a, b', p, q) = hm.run b (leb→le j (length b) enough) in
          rw p ((hf a).short b' (omega arith))
      | inr few ↦ rw (hm.short b (ground arith))
    ];
  }

-- A read of n bytes before a read of k bytes.
pub uint-Exactly {ℓ} :
    {A : Type ℓ} (n k : ℕ) {f : ℕ → Read A}
    → ((v : ℕ) → Exactly k (f v))
    → Exactly (n + k) (read_uint n >>= f)
uint-Exactly n k {f} h = bind-Exactly n k (read_uint n) f (read_uint-Exactly n) h
