-- ===== src/Netflow/Decode/Loop.antt =====
-- The loop of `DecodeMessageCommon` as a relation, with no fuel.
use goflow.Base.{
  ℕ, zero, suc, ◌≤◌, ◌≡◌, inl, inr, Bool-cases, Option-cases, List, [], ◌∷◌, ◌++◌, true, false,
  Option, none, some, length, arith, Error, leb→le,
}
use goflow.Netflow.Types.{FlowSet, TemplateStore}
use goflow.Netflow.Decode.FlowSets.{
  is_template_not_found, join, FlowSets, decode_flow_set, more_flow_sets, decode_flow_sets,
  decode_message_common,
}
use goflow.Netflow.Decode.Rest.{decode_flow_set-rest}

module _ {S : Type 0} (ops : TemplateStore S) (version obs_domain_id : ℕ) where
  -- The runs of the loop from flow sets and an error so far, an unread payload and a store, to the
  -- results of the loop. `start` is the length of the payload at the beginning.
  pub data Runs (size start : ℕ)
      : List FlowSet → Option Error → List ℕ → Option S → FlowSets S → Type 0 where
    stops :
        {flow_sets : List FlowSet} {error : Option Error} {payload : List ℕ} {store : Option S}
        → more_flow_sets ops version obs_domain_id size start payload ≡ false
        → Runs size start flow_sets error payload store
            (record { flow_sets = flow_sets; error = error; store = store })
    decodes :
        {flow_sets : List FlowSet} {error : Option Error} {payload : List ℕ} {store : Option S}
        {r : FlowSets S}
        → more_flow_sets ops version obs_domain_id size start payload ≡ true
        → (decode_flow_set ops version obs_domain_id payload store).error ≡ none
        → Runs size start
            (flow_sets ++ (decode_flow_set ops version obs_domain_id payload store).flow_set ∷ [])
            error
            (decode_flow_set ops version obs_domain_id payload store).rest
            (decode_flow_set ops version obs_domain_id payload store).store
            r
        → Runs size start flow_sets error payload store r
    misses :
        {flow_sets : List FlowSet} {error : Option Error} {payload : List ℕ} {store : Option S}
        {r : FlowSets S}
        → more_flow_sets ops version obs_domain_id size start payload ≡ true
        → (e : Error) → (decode_flow_set ops version obs_domain_id payload store).error ≡ some e
        → is_template_not_found e ≡ true
        → Runs size start
            (flow_sets ++ (decode_flow_set ops version obs_domain_id payload store).flow_set ∷ [])
            (join error e)
            (decode_flow_set ops version obs_domain_id payload store).rest
            (decode_flow_set ops version obs_domain_id payload store).store
            r
        → Runs size start flow_sets error payload store r
    fails :
        {flow_sets : List FlowSet} {error : Option Error} {payload : List ℕ} {store : Option S}
        → more_flow_sets ops version obs_domain_id size start payload ≡ true
        → (e : Error) → (decode_flow_set ops version obs_domain_id payload store).error ≡ some e
        → is_template_not_found e ≡ false
        → Runs size start flow_sets error payload store (record {
          flow_sets = flow_sets;
          error = some e;
          store = (decode_flow_set ops version obs_domain_id payload store).store;
        })

  -- With as much fuel as the payload has bytes, the decoder's loop is a run of the source's loop.
  decode_flow_sets-Runs :
      (fuel size start : ℕ) (flow_sets : List FlowSet) (error : Option Error) (payload : List ℕ)
      (store : Option S)
      → length payload ≤ fuel
      → Runs size start flow_sets error payload store
          (decode_flow_sets ops version obs_domain_id fuel size start flow_sets error payload store)
  unfolding decode_flow_sets
  decode_flow_sets-Runs zero size start flow_sets error payload store h =
      let off : more_flow_sets ops version obs_domain_id size start payload ≡ false =
        ground arith in
      rw off (stops off)
  decode_flow_sets-Runs (suc fuel) size start flow_sets error payload store h =
      elim (Bool-cases (more_flow_sets ops version obs_domain_id size start payload)) [
        | inl on ↦
            let shorter =
              decode_flow_set-rest ops version obs_domain_id payload store
                (leb→le 4 (length payload) (ground arith)) in
            elim (Option-cases (decode_flow_set ops version obs_domain_id payload store).error) [
              | inl fine ↦
                  rw (on, fine)
                    (decodes on fine (decode_flow_sets-Runs fuel size start _ _ _ _ (omega arith)))
              | inr (e, found) ↦ elim (Bool-cases (is_template_not_found e)) [
                | inl missing ↦
                    rw (on, found, missing)
                      (misses on e found missing
                        (decode_flow_sets-Runs fuel size start _ _ _ _ (omega arith)))
                | inr other ↦ rw (on, found, other) (fails on e found other)
              ]
            ]
        | inr off ↦ rw off (stops off)
      ]

  -- On every payload, with every template store, `DecodeMessageCommon` ends: what it returns is the
  -- result of a run of the source's loop over the flow sets, from the whole payload to the round at
  -- which its test or an error stops it.
  pub decode_message_common-Runs :
      (size : ℕ) (payload : List ℕ) (store : Option S)
      → Runs size
          (length payload)
          []
          none
          payload
          store
          (decode_message_common ops version obs_domain_id size payload store)
  unfolding decode_message_common
  decode_message_common-Runs size payload store =
      decode_flow_sets-Runs (length payload) size (length payload) [] none payload store
        (omega arith)
