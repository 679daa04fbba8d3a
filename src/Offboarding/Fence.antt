-- ===== src/Offboarding/Fence.antt =====
-- src/bluelab/lifecycle: the fence of the history's sequence. What an operation was staged on still
-- stands when it is applied, since each application moves the sequence of its organisation.
use bluelab_backend_prod.Prelude.{
  ℕ, ◌+◌, ◌≤◌, ◌≡◌, ◌∙◌, ap, map, refl, sym, subst, Bool, true, false, not, Option, none, some,
  List, [], ◌∷◌, ◌++◌, ◌==◌, leb, find, All, ok, arith, Bool-cases, Option-cases, inl, inr,
}
use bluelab_backend_prod.Offboarding.{
  DeletionRestriction, LifecycleAction, confirm_term, renew_term, extend, claim, TermData,
  LifecycleEvent, LifecycleOperation, LifecycleStatus, LifecycleTables, Org, active, offboarding,
  purging, is_active, is_purging, find_operation, find_org,
}
use bluelab_backend_prod.Offboarding.Commands.{accepted_org, accept_operation}
use bluelab_backend_prod.Offboarding.Claim.{is_due, claim_blocker, claimed_run}
use bluelab_backend_prod.Offboarding.Episode.{extension_data}
use bluelab_backend_prod.Offboarding.Terms.{term_data}
use bluelab_backend_prod.Subjects.{Request, is_pending_op, op_applied, update_first}

-- What a staged operation found in its organisation, for all that happens up to a time.
abbrev pub is_ready : ℕ → LifecycleAction → Org → Bool
is_ready by (confirm_term d) g = not (is_purging g.lifecycle_status)
is_ready by (renew_term d) g = not (is_purging g.lifecycle_status)
is_ready by (claim run) g = is_due by g
is_ready by (extend old new) g = leb old new
is_ready by _ g = true

-- A pending operation expects a sequence that its organisation has not passed; while the
-- organisation is there, what the operation found in it stands.
abbrev pub Fenced : ℕ → List Org → LifecycleOperation → Type 0
Fenced by orgs o =
    (g : Org)
    → find (λ x. x.id == o.org) orgs ≡ some g
    → is_pending_op o.status ≡ true
    → (o.expected_sequence ≤ g.lifecycle_sequence)
      × (o.expected_sequence ≡ g.lifecycle_sequence → is_ready by o.action g ≡ true)

-- An organisation that is purged is due.
abbrev pub Due : ℕ → Org → Type 0
Due by g = is_purging g.lifecycle_status ≡ true → is_due by g ≡ true

pub record IsFenced (by : ℕ) (t : LifecycleTables) : Type 0 where
  pub fenced : All (Fenced by t.orgs) t.operations
  pub due : All (Due by) t.orgs

-- The moves of an organisation: an active one is offboarded, an offboarded one is restored or
-- claimed, and a claimed one stays.
abbrev pub moves : LifecycleStatus → LifecycleStatus → Bool
moves active active = true
moves active offboarding = true
moves active purging = false
moves offboarding s = true
moves purging purging = true
moves purging _ = false

-- A deadline is kept or moved later.
abbrev pub is_later : Option ℕ → Option ℕ → Bool
is_later none d = true
is_later (some d) none = false
is_later (some d) (some d') = leb d d'

pub record Change (by : ℕ) (t : LifecycleTables) (g g' : Org) : Type 0 where
  pub allowed : moves g.lifecycle_status g'.lifecycle_status ≡ true
  pub stays : is_purging g.lifecycle_status ≡ true → g'.purge_eligible_at ≡ g.purge_eligible_at
  pub lasts :
      is_active g.lifecycle_status ≡ false
      → is_active g'.lifecycle_status ≡ false
      → (g'.offboarding_id ≡ g.offboarding_id)
        × (is_later g.purge_eligible_at g'.purge_eligible_at ≡ true)
  pub clears :
      is_purging g'.lifecycle_status ≡ true
      → is_purging g.lifecycle_status ≡ false
      → (is_due by g' ≡ true) × (claim_blocker g.id t ≡ false)

abbrev pub moved_to : LifecycleEvent → (Org → Org) → Org → Org
moved_to e f g = record (f g) { lifecycle_sequence = e.sequence }

abbrev pub applied_by : LifecycleEvent → LifecycleOperation → LifecycleOperation
applied_by e x = record x { status = op_applied; resulting_sequence = some e.sequence }

-- A list that keeps its elements in their places.
abbrev pub Grows {ℓ} : {A : Type ℓ} → List A → List A → Type ℓ
Grows {A = A} xs ys = (extra : List A) × (ys ≡ xs ++ extra)

append_nothing {ℓ} : {A : Type ℓ} (xs : List A) → xs ++ [] ≡ xs
append_nothing [] = refl
append_nothing (x ∷ xs) = ap (λ ys. x ∷ ys) (append_nothing xs)

pub Grows-same {ℓ} : {A : Type ℓ} {xs ys : List A} → ys ≡ xs → Grows xs ys
Grows-same {xs = xs} same = ([], same ∙ sym (append_nothing xs))

-- What an accepted operation may do to the tables that it is not fenced by: no term, run or deletion
-- restriction is removed, and the subject requests stay.
pub record Entered (t t' : LifecycleTables) : Type 0 where
  pub terms : Grows t.terms t'.terms
  pub runs : Grows t.runs t'.runs
  pub restrictions :
      Grows (map DeletionRestriction.id t.restrictions) (map DeletionRestriction.id t'.restrictions)
  pub requests : t'.requests ≡ t.requests

pub unentered :
    {t t' : LifecycleTables}
    → t'.terms ≡ t.terms
    → t'.runs ≡ t.runs
    → t'.restrictions ≡ t.restrictions
    → t'.requests ≡ t.requests
    → Entered t t'
unentered terms runs restrictions requests = record {
  terms = Grows-same terms;
  runs = Grows-same runs;
  restrictions = Grows-same (ap (map DeletionRestriction.id) restrictions);
  requests = requests;
}

-- One step of the lifecycle: nothing, other requests, only a new pending operation, only an
-- operation rewritten in place, or an accepted operation with the change of its organisation.
pub data Evolves (by : ℕ) (t t' : LifecycleTables) : Type 0 where
  kept : t' ≡ t → Evolves by t t'
  answered : (rows : List Request) → t' ≡ record t { requests = rows } → Evolves by t t'
  staged :
      (o : LifecycleOperation)
      → t' ≡ record t { operations = t.operations ++ o ∷ [] }
      → Fenced by t.orgs o
      → Evolves by t t'
  rewritten :
      (id : ℕ) (f : LifecycleOperation → LifecycleOperation)
      → t' ≡ record t { operations = update_first (λ x. x.id == id) f t.operations }
      → ((o : LifecycleOperation)
          → find_operation id t ≡ some o
          → Fenced by t.orgs o
          → Fenced by t.orgs (f o))
      → Evolves by t t'
  settled :
      (o : LifecycleOperation) (e : LifecycleEvent) (f : Org → Org) (g : Org)
      → find_org o.org t ≡ some g
      → e.sequence ≡ g.lifecycle_sequence + 1
      → ((x : Org) → (f x).id ≡ x.id)
      → Change by t g (moved_to e f g)
      → t'.orgs ≡ update_first (λ x. x.id == o.org) (moved_to e f) t.orgs
      → t'.operations ≡ update_first (λ x. x.id == o.id) (applied_by e) t.operations
      → Entered t t'
      → Evolves by t t'

pub All-find {ℓ κ} :
    {A : Type ℓ} (P : A → Type κ) (p : A → Bool) (xs : List A) {x : A}
    → All P xs
    → find p xs ≡ some x
    → P x
All-find P p [] h e = absurd (cc)
All-find P p (y ∷ xs) {x = x} h e = elim (Bool-cases (p y)) [
  | inl here ↦ subst P (ground arith) h.0
  | inr later ↦ All-find P p xs h.1 (ground arith)
]

-- The operation that an event is for, and its organisation.
pub accepted_org-ok :
    (o : LifecycleOperation) (e : LifecycleEvent) (t : LifecycleTables) {g : Org}
    → accepted_org o e t ≡ ok g
    → (is_pending_op o.status ≡ true)
      × (e.sequence ≡ o.expected_sequence + 1)
      × (find_org o.org t ≡ some g)
      × (g.lifecycle_sequence ≡ o.expected_sequence)
unfolding accepted_org
accepted_org-ok o e t {g} h = elim (Option-cases (find_org o.org t)) [
  | inl unknown ↦ absurd (ground arith)
  | inr (x, found) ↦ (ground arith, ground arith, ground arith, ground arith)
]

-- An accepted operation settles, if the change that it makes is allowed where it is ready, with
-- whatever is entered in the other tables.
pub accept_operation-Evolves :
    (by : ℕ) (t : LifecycleTables) (id : ℕ) (o : LifecycleOperation) (e : LifecycleEvent)
    (f : Org → Org) (g : Org) {t' : LifecycleTables}
    → IsFenced by t
    → find_operation id t ≡ some o
    → is_pending_op o.status ≡ true
    → e.sequence ≡ o.expected_sequence + 1
    → find_org o.org t ≡ some g
    → g.lifecycle_sequence ≡ o.expected_sequence
    → ((x : Org) → (f x).id ≡ x.id)
    → (is_ready by o.action g ≡ true → Change by t g (moved_to e f g))
    → t'.orgs ≡ (accept_operation o e f t).orgs
    → t'.operations ≡ (accept_operation o e f t).operations
    → Entered t t'
    → Evolves by t t'
unfolding accept_operation
accept_operation-Evolves by t id o e f g inv known pending next found here same change orgs ops
      entered =
    let fence =
      All-find (Fenced by t.orgs) (λ x. x.id == id) t.operations inv.fenced known g found pending in
    settled o e f g found (ground arith) same (change (fence.1 (sym here))) orgs ops entered

pub ready-term :
    (by : ℕ) (a : LifecycleAction) (g : Org) {d : TermData}
    → term_data a ≡ some d
    → is_ready by a g ≡ true
    → is_purging g.lifecycle_status ≡ false
ready-term by a g h r = ground arith

pub ready-claim :
    (by : ℕ) (a : LifecycleAction) (g : Org) {run : ℕ}
    → claimed_run a ≡ some run
    → is_ready by a g ≡ true
    → is_due by g ≡ true
ready-claim by a g h r = ground arith

pub ready-extension :
    (by : ℕ) (a : LifecycleAction) (g : Org) {d : ℕ × ℕ}
    → extension_data a ≡ some d
    → is_ready by a g ≡ true
    → leb d.0 d.1 ≡ true
ready-extension by a g h r = ground arith
