-- ===== src/Subjects/Replay.antt =====
-- src/bluelab/lifecycle/subject_states.py: a decision that is replayed changes nothing.
use bluelab_backend_prod.Prelude.{
  ℕ, ◌≡◌, sym, subst, Bool, true, false, none, some, List, [], ◌∷◌, ◌++◌, ◌==◌, find, ok, arith,
  Option-cases, Result-cases, inl, inr, ==_refl,
}
use bluelab_backend_prod.Subjects.{
  RequestKind, same_status, allowed, Request, Operation, Tables, Command, find_request,
  is_rejected_op,
}
use bluelab_backend_prod.Subjects.Moves.{IsLawful, same_status-eq}
use bluelab_backend_prod.Subjects.Prepare.{
  Decision, is_restricting, new_operation, payload_of, prepare,
}

module _ (digest : RequestKind → ℕ → Command → ℕ) (now : ℕ) (d : Decision) (t : Tables) where
  pub new_operation-IsLawful :
      (r : Request) {o : Operation}
      → new_operation digest now d r t ≡ ok o
      → (o.id ≡ d.operation_id)
        × (o.org ≡ r.org)
        × (o.actor ≡ d.actor_id)
        × (o.digest ≡ digest d.kind d.request_id d.command)
        × (is_rejected_op o.status ≡ false)
        × IsLawful o
  unfolding new_operation payload_of
  new_operation-IsLawful r {o} e = elim (Option-cases (find (λ o. o.id == r.org) t.orgs)) [
    | inl no_org ↦ absurd (ground arith)
    | inr (org, scoped) ↦ elim (Option-cases (find (is_restricting r) t.restrictions)) [
      | inl free ↦ absurd (ground arith)
      | inr (s, restricted) ↦
          let expected : same_status r.status d.command.expected_status ≡ true = ground arith in
          let may : allowed d.kind r.status d.command.status ≡ true = ground arith in
          let same = same_status-eq r.status d.command.expected_status expected in
          let staged : o.payload.expected_status ≡ d.command.expected_status = ground arith in
          let kind : o.payload.kind ≡ d.kind = ground arith in
          let status : o.payload.status ≡ d.command.status = ground arith in
          (
            ground arith,
            ground arith,
            ground arith,
            ground arith,
            ground arith,
            record { lawful = rw (kind, staged, status, sym same) may },
          )
    ]
  ]

find-last :
    (id : ℕ) (os : List Operation) (o : Operation)
    → find (λ x. x.id == id) os ≡ none
    → o.id ≡ id
    → find (λ x. x.id == id) (os ++ o ∷ []) ≡ some o
find-last id [] o h same = rw same (ground (arith, ==_refl id))
find-last id (x ∷ os) o h same = ground (arith, find-last id os o)

prepare-staged :
    (digest : RequestKind → ℕ → Command → ℕ) (now : ℕ) (d : Decision) (t : Tables) {r : Request}
    {o : Operation}
    → find_request d.kind d.request_id t.requests ≡ some r
    → find (λ x. x.id == d.operation_id) t.operations ≡ some o
    → o.org ≡ r.org
    → o.actor ≡ d.actor_id
    → o.digest ≡ digest d.kind d.request_id d.command
    → is_rejected_op o.status ≡ false
    → prepare digest now d t ≡ ok (t, o)
unfolding prepare
prepare-staged digest now d t {r} {o} asked staged org actor sealed open_op =
    let one : (o.org == r.org) ≡ true = rw org (==_refl r.org) in
    let two : (o.actor == d.actor_id) ≡ true = rw actor (==_refl d.actor_id) in
    let three : (o.digest == digest d.kind d.request_id d.command) ≡ true =
      rw sealed (==_refl (digest d.kind d.request_id d.command)) in
    ground arith

-- A decision that was staged can be sent again, at any later time, whatever the head of the history
-- and the ledger say by then: it answers with the same operation and changes nothing.
pub prepare_replayed :
    (digest : RequestKind → ℕ → Command → ℕ) (now later head : ℕ) (armed : Bool) (d : Decision)
    (t : Tables) {t' : Tables} {o : Operation}
    → prepare digest now d t ≡ ok (t', o)
    → prepare digest later (record d { head_sequence = head; is_armed = armed }) t' ≡ ok (t', o)
unfolding prepare
prepare_replayed digest now later head armed d t {t'} {o} h =
    elim (Option-cases (find_request d.kind d.request_id t.requests)) [
      | inl unknown ↦ absurd (ground arith)
      | inr (r, asked) ↦ elim (Option-cases (find (λ x. x.id == d.operation_id) t.operations)) [
        | inr (old, staged) ↦ (let same : t ≡ t' = ground arith in rw (sym same) (ground arith))
        | inl fresh ↦ elim (Result-cases (new_operation digest now d r t)) [
          | inr (bad, wrong) ↦ absurd (ground arith)
          | inl (new, made) ↦
              let (named, org, actor, sealed, open_op, law) =
                new_operation-IsLawful digest now d t r {o = new} made in
              let written : record t { operations = t.operations ++ new ∷ [] } ≡ t' =
                ground arith in
              let answer : new ≡ o = ground arith in
              let again : Decision = record d { head_sequence = head; is_armed = armed } in
              let base =
                prepare-staged digest later again
                  (record t { operations = t.operations ++ new ∷ [] }) asked
                  (find-last d.operation_id t.operations new fresh named) org actor sealed
                  open_op in
              subst (λ x. prepare digest later again x ≡ ok (x, o)) written
                (subst
                  (λ y.
                    prepare digest later again (record t { operations = t.operations ++ new ∷ [] })
                    ≡ ok (record t { operations = t.operations ++ new ∷ [] }, y))
                  answer base)
        ]
      ]
    ]
