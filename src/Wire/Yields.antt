-- ===== src/Wire/Yields.antt =====
-- What holds of every result of a read, whatever the buffer is.
use goflow.Base.{
  ℕ, ◌≡◌, List, Read, ok, err, Error, ◌>>=◌, Bool, true, false, if◌then◌else◌, Bool-cases, inl, inr,
  pure, read_bind-eq-ok,
}

-- Each result of a successful run of `m` satisfies P.
pub record Yields {ℓ κ} {A : Type ℓ} (P : A → Type κ) (m : Read A) : Type (ℓ ⊔ κ) where
  pub of_ok : (b : List ℕ) (a : A) (rest : List ℕ) → m b ≡ ok (a, rest) → P a

pub pure-Yields {ℓ κ} : {A : Type ℓ} {P : A → Type κ} (a : A) → P a → Yields P (pure a)
pure-Yields {P} a p = record { of_ok = λ b a' rest h. let e : a ≡ a' = cc in rw e at p }

module _ {ℓ κ μ} {A : Type ℓ} {B : Type κ} {P : B → Type μ} where
  -- A first read of which nothing is known.
  pub any-Yields : (m : Read A) (f : A → Read B) → ((a : A) → Yields P (f a)) → Yields P (m >>= f)
  any-Yields m f h = record {
    of_ok = λ b v rest e. let (a, b', p, q) = read_bind-eq-ok m f b e in (h a).of_ok b' v rest q;
  }

  -- A first read whose result is known to satisfy Q.
  pub bind-Yields {ν} :
      {Q : A → Type ν} (m : Read A) (f : A → Read B)
      → Yields Q m
      → ((a : A) → Q a → Yields P (f a))
      → Yields P (m >>= f)
  bind-Yields m f t h = record {
    of_ok = λ b v rest e.
        let (a, b', p, q) = read_bind-eq-ok m f b e in (h a (t.of_ok b a b' p)).of_ok b' v rest q;
  }

pub if-Yields {ℓ κ} :
    {A : Type ℓ} {P : A → Type κ} (c : Bool) (m n : Read A)
    → Yields P m
    → Yields P n
    → Yields P (λ b. if c then m b else n b)
if-Yields true m n hm hn = record { of_ok = hm.of_ok }
if-Yields false m n hm hn = record { of_ok = hn.of_ok }

-- A test before a read fails or leaves the read as it is.
pub check-Yields {ℓ κ} :
    {A : Type ℓ} {P : A → Type κ} (c : List ℕ → Bool) (e : List ℕ → Error) (m : Read A)
    → Yields P m
    → Yields P (λ b. if c b then err (e b) else m b)
check-Yields c e m hm = record {
  of_ok = λ b a rest h. elim (Bool-cases (c b)) [
    | inl on ↦ absurd (let q = rw on at h in cc)
    | inr off ↦ hm.of_ok b a rest (rw off at h)
  ];
}
