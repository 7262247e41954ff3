-- ===== src/Netflow/Decode/Termination.antt =====
-- The fuel of the set decoders of netflow.go.
use goflow.Base.{
  ℕ, zero, suc, ◌+◌, ◌-◌, ◌/◌, ◌≤◌, ◌≡◌, ◌≢◌, refl, List, [], ◌∷◌, length, length-drop, arith, Read,
  ◌>>=◌, out_of_fuel, Bool, true, false, ◌&&◌, not, if◌then◌else◌, ◌==◌, ltb, failed, repeat,
  repeat_total, read_bind-eq-ok, read_bind-ne-err, bit_and,
}
use goflow.Wire.{read_uint}
use goflow.Wire.Reads.{Takes, read_uint-Takes, pure-Takes, bind-Takes, Takes-weaken}
use goflow.Netflow.Types.{
  Field, DataRecord, OptionsDataRecord, TemplateRecord, NFv9OptionsTemplateRecord,
  IpfixOptionsTemplateRecord,
}
use goflow.Netflow.Decode.Templates.{
  decode_pen, decode_field, decode_fields, decode_template, decode_template_set,
  decode_nfv9_options_template, decode_nfv9_options_template_set, decode_ipfix_options_template,
  decode_ipfix_options_template_set, at_least_four, fail_negative,
}
use goflow.Netflow.Decode.Data.{
  get_template_size, decode_length, decode_value, take_value, decode_values,
  decode_data_set_using_fields, decode_data_record, decode_data_set, decode_options_data_record,
  decode_options_data_set, holds_record, require_progress,
}

module _ {A : Type 0} where
  if-Takes :
      (c : Bool) {k : ℕ} {m n : Read A} → Takes k m → Takes k n → Takes k (if c then m else n)
  if-Takes true tm tn = tm
  if-Takes false tm tn = tn

  -- A read of a number and then `f`.
  uint-Takes :
      (n k : ℕ) {f : ℕ → Read A} → ((v : ℕ) → Takes k (f v)) → Takes (n + k) (read_uint n >>= f)
  uint-Takes n k {f} h = bind-Takes n k (read_uint n) f (read_uint-Takes n) h

fail_negative-Takes : {A : Type 0} (k : ℕ) → Takes k (fail_negative {A = A})
fail_negative-Takes k = record { least = λ b a rest h. cc; clean = λ b h. cc }

decode_pen-Takes : (pen : Bool) (type length : ℕ) → Takes 0 (decode_pen pen type length)
unfolding decode_pen
decode_pen-Takes pen type length =
    if-Takes (pen && not (bit_and type 0x8000 == 0))
      (Takes-weaken (uint-Takes 4 0 λ v. pure-Takes _) (omega arith)) (pure-Takes _)

decode_field-Takes : (pen : Bool) → Takes 4 (decode_field pen)
unfolding decode_field
decode_field-Takes pen = uint-Takes 2 2 λ t. uint-Takes 2 0 λ l. decode_pen-Takes pen t l

decode_fields-Takes : (pen : Bool) (n : ℕ) → Takes 0 (decode_fields pen n)
unfolding decode_fields
decode_fields-Takes pen zero = pure-Takes []
decode_fields-Takes pen (suc n) =
    Takes-weaken
      (bind-Takes 4 0 (decode_field pen) _ (decode_field-Takes pen)
        λ f. bind-Takes 0 0 (decode_fields pen n) _ (decode_fields-Takes pen n) λ fs. pure-Takes _)
      (omega arith)

decode_template-Takes : (version : ℕ) → Takes 4 (decode_template version)
unfolding decode_template
decode_template-Takes version = uint-Takes 2 2 λ i. uint-Takes 2 0 λ n.
    bind-Takes 0 0 (decode_fields (version == 10) n) _ (decode_fields-Takes (version == 10) n)
      λ fs. pure-Takes _

decode_nfv9_options_template-Takes : Takes 6 decode_nfv9_options_template
unfolding decode_nfv9_options_template
decode_nfv9_options_template-Takes = uint-Takes 2 4 λ i. uint-Takes 2 2 λ s. uint-Takes 2 0 λ o.
    bind-Takes 0 0 (decode_fields false (s / 4)) _ (decode_fields-Takes false (s / 4)) λ fs.
      bind-Takes 0 0 (decode_fields false (o / 4)) _ (decode_fields-Takes false (o / 4))
        λ gs. pure-Takes _

decode_ipfix_options_template-Takes : Takes 6 decode_ipfix_options_template
unfolding decode_ipfix_options_template
decode_ipfix_options_template-Takes = uint-Takes 2 4 λ i. uint-Takes 2 2 λ n. uint-Takes 2 0 λ s.
    bind-Takes 0 0 (decode_fields true s) _ (decode_fields-Takes true s) λ fs.
      bind-Takes 0 0 _ _
        (if-Takes (ltb n s) (fail_negative-Takes 0) (decode_fields-Takes true (n - s)))
        λ gs. pure-Takes _

module _ {A : Type 0} {k : ℕ} {read : Read A} (takes : Takes k read) (some_bytes : 1 ≤ k) where
  -- A loop over reads of at least a byte whose test fails at the end of the buffer.
  loop_ends :
      (more : List ℕ → Bool)
      → more [] ≡ false
      → (b : List ℕ) (acc : List A) → repeat more read (length b) [] b ≢ failed acc out_of_fuel
  loop_ends more stop b acc =
      repeat_total more read (λ b' a rest _ h. let t = takes.least b' a rest h in omega arith)
        takes.clean stop (length b) [] b (omega arith) acc

decode_length-Takes : (n : ℕ) → Takes 0 (decode_length n)
unfolding decode_length
decode_length-Takes n =
    if-Takes (n == 0xffff)
      (Takes-weaken
        (uint-Takes 1 0
          λ m. if-Takes (m == 0xff) (Takes-weaken (read_uint-Takes 2) (omega arith)) (pure-Takes m))
        (omega arith))
      (pure-Takes n)

take_value-Takes : (f : Field) (n : ℕ) → Takes 0 (take_value f n)
take_value-Takes f n = record {
  least = λ b a rest h. ground (arith, length-drop n b);
  clean = λ b h. cc;
}

decode_values-Takes : (fs : List Field) → Takes 0 (decode_values fs)
unfolding decode_values decode_value
decode_values-Takes [] = pure-Takes []
decode_values-Takes (f ∷ fs) =
    bind-Takes 0 0 (decode_value f) _
      (bind-Takes 0 0 (decode_length f.length) _ (decode_length-Takes f.length)
        (take_value-Takes f))
      λ v. bind-Takes 0 0 (decode_values fs) _ (decode_values-Takes fs) λ vs. pure-Takes _

decode_data_set_using_fields-Takes : (fs : List Field) → Takes 0 (decode_data_set_using_fields fs)
unfolding decode_data_set_using_fields
decode_data_set_using_fields-Takes fs = record {
  least = λ b a rest h. ground (arith, (decode_values-Takes fs).least b a rest);
  clean = λ b h. ground (arith, (decode_values-Takes fs).clean b);
}

-- The test of progress at the end of a round makes the round take a byte.
progress-Takes :
    {A B : Type 0} (m : Read A) (f : A → B)
    → Takes 0 m
    → Takes 1 (λ payload. (m >>= λ v. require_progress (length payload) (f v)) payload)
progress-Takes m f t = record {
  least = λ b a rest h.
      let (v, b', p, q) = read_bind-eq-ok m (λ v. require_progress (length b) (f v)) b h in
      ground (arith, t.least b v b' p);
  clean = λ b.
      read_bind-ne-err m (λ v. require_progress (length b) (f v)) b out_of_fuel (t.clean b)
        (λ v b' e. ground arith);
}

decode_data_record-Takes : (fs : List Field) → Takes 1 (decode_data_record fs)
unfolding decode_data_record
decode_data_record-Takes fs =
    progress-Takes (decode_data_set_using_fields fs) (λ vs. record { values = vs })
      (decode_data_set_using_fields-Takes fs)

decode_options_data_record-Takes : (ss os : List Field) → Takes 1 (decode_options_data_record ss os)
unfolding decode_options_data_record
decode_options_data_record-Takes ss os = record {
  least = λ b a rest h.
      let (vs, b', p, q) = read_bind-eq-ok (decode_data_set_using_fields ss) _ b h in
      let (ws, b'', r, s) = read_bind-eq-ok (decode_data_set_using_fields os) _ b' q in
      ground (
        arith,
        (decode_data_set_using_fields-Takes ss).least b vs b' p,
        (decode_data_set_using_fields-Takes os).least b' ws b'' r,
      );
  clean = λ b.
      read_bind-ne-err (decode_data_set_using_fields ss) _ b out_of_fuel
        ((decode_data_set_using_fields-Takes ss).clean b)
        (λ vs b'.
          read_bind-ne-err (decode_data_set_using_fields os) _ b' out_of_fuel
            ((decode_data_set_using_fields-Takes os).clean b') (λ ws b'' e. ground arith));
}

-- None of the five set decoders runs out of fuel, on any payload: each ends by the test of its loop
-- or with an error of the source.
pub set_decoders_end :
    (version : ℕ) (fields scopes options : List Field) (payload : List ℕ)
    → ((rs : List TemplateRecord) → decode_template_set version payload ≢ failed rs out_of_fuel)
      × ((rs : List NFv9OptionsTemplateRecord)
          → decode_nfv9_options_template_set payload ≢ failed rs out_of_fuel)
      × ((rs : List IpfixOptionsTemplateRecord)
          → decode_ipfix_options_template_set payload ≢ failed rs out_of_fuel)
      × ((rs : List DataRecord) → decode_data_set fields payload ≢ failed rs out_of_fuel)
      × ((rs : List OptionsDataRecord)
          → decode_options_data_set scopes options payload ≢ failed rs out_of_fuel)
unfolding decode_template_set decode_nfv9_options_template_set decode_ipfix_options_template_set
    decode_data_set decode_options_data_set
set_decoders_end version fields scopes options payload = (
  loop_ends (decode_template-Takes version) (omega arith) at_least_four refl payload,
  loop_ends decode_nfv9_options_template-Takes (omega arith) at_least_four refl payload,
  loop_ends decode_ipfix_options_template-Takes (omega arith) at_least_four refl payload,
  loop_ends (decode_data_record-Takes fields) (omega arith)
      (holds_record (get_template_size fields)) refl payload,
  loop_ends (decode_options_data_record-Takes scopes options) (omega arith)
      (holds_record (get_template_size scopes + get_template_size options)) refl payload,
)
