-- ===== src/PricingCleanup/Acts.antt =====
-- What the passes hold of a row stays sound with every action of a pass.
use mathlib.Core.Path.{subst}
use enterprise_agentops.Base.{
  ℕ, ◌+◌, ◌≤◌, ◌≡◌, refl, sym, ap, String, str_eq, Bool, true, false, ◌&&◌, Option, none, some,
  List, [], ◌∷◌, ◌++◌, length, select, length-append, select-append, ◌⊎◌, Bool-cases, inl, inr,
  if◌then◌else◌, arith,
}
use enterprise_agentops.Values.{Fields, is_json_fields}
use enterprise_agentops.Columns.{fields_column}
use enterprise_agentops.Exec.{◌>>=◌}
use enterprise_agentops.AuditStore.{record_event}
use enterprise_agentops.Storage.{Storage}
use enterprise_agentops.Storage.Host.{Host}
use enterprise_agentops.PricingCleanup.Record.{CleanupState, is_terminal, is_active, is_claimed}
use enterprise_agentops.PricingCleanup.Store
use enterprise_agentops.PricingCleanup.Store.{
  has_no_token, now_of, World, row_of, write, compare_and_set, claimed_by, holds, set_claim,
  set_delete_started, set_released, set_resolved, tick,
}
use enterprise_agentops.PricingCleanup.Program.{Action, Provider, act}
use enterprise_agentops.PricingCleanup.Permits.{Permit, Allowed, after}
use enterprise_agentops.PricingCleanup.System.{set_at, sent_count}
use enterprise_agentops.PricingCleanup.View.{Sound, Injective}
use enterprise_agentops.PricingCleanup.Effects.{claims, crosses, releases, resolves}
use enterprise_agentops.PricingCleanup.Surroundings.{
  keeps_its_permit, sent_once, drawn_elsewhere, drawn,
}
use enterprise_agentops.PricingCleanup.Kept.{view_of, Kept, set_by}

if_missed : (p : Permit) (b : Bool) → (if b && false then p else Permit.free) ≡ Permit.free
if_missed p true = refl
if_missed p false = refl

pub count-append_self :
    (id j : String) (js : List String)
    → str_eq j id ≡ true
    → length (select (λ k. str_eq k id) (js ++ j ∷ [])) ≡ length (select (λ k. str_eq k id) js) + 1
count-append_self id j js e = ground (
  arith,
  length-append (select (λ k. str_eq k id) js) (j ∷ []),
  select-append (λ k. str_eq k id) js (j ∷ []),
  e,
)

pub count-append_other :
    (id j : String) (js : List String)
    → str_eq j id ≡ false
    → length (select (λ k. str_eq k id) (js ++ j ∷ [])) ≡ length (select (λ k. str_eq k id) js)
count-append_other id j js e = ground (
  arith,
  length-append (select (λ k. str_eq k id) js) [],
  select-append (λ k. str_eq k id) js (j ∷ []),
  e,
)

audit_uuids :
    {Outside : Type 0} (host : Host) (event : String) (details : Fields) (run_id : Option String)
    (s : Storage Outside)
    → s.uuids ≤ (record_event host event details run_id none s).1.uuids
unfolding record_event ◌>>=◌ fields_column
audit_uuids host event details run_id s = elim (Bool-cases (is_json_fields details)) [
  | inl e ↦ rw e (omega arith)
  | inr e ↦ rw e (omega arith)
]

module _ {Outside : Type 0} (uuid4 : ℕ → String) (id : String) where
  module _ (w : World Outside) (by : ℕ → ℕ) (owner : Option ℕ) (permits : ℕ → Permit)
      (sound : Sound uuid4 (view_of id w by owner) permits) (i : ℕ) where
    -- The row and the counts are as they were.
    unread : Kept uuid4 id w (set_at i (permits i) permits)
    unread = (by, owner, keeps_its_permit uuid4 (view_of id w by owner) permits sound i)

    claim-Kept :
        (j t : String) (now : ℕ)
        → Injective uuid4
        → (str_eq j id ≡ true → permits i ≡ Permit.fresh t)
        → Kept uuid4 id (Store.claim j t now w).1 (
            set_at i
              (if str_eq j id && (Store.claim j t now w).0 then Permit.holding t else Permit.free)
              permits)
    unfolding Store.claim
    claim-Kept j t now injective h =
        set_by uuid4 id w by owner permits i j (λ r. is_active r.state) (set_claim t now)
          (Permit.holding t) (λ b. if str_eq j id && b then Permit.holding t else Permit.free) sound
          (λ _. refl) (if_missed _ (str_eq j id)) (λ e. rw e refl) (λ e. rw e refl)
          (λ r e m at. (
            owner,
            claims uuid4 injective (view_of id w by owner) permits sound r at i t now (h e) m,
          ))

    begin_delete-Kept :
        (j t : String)
        → Injective uuid4
        → (str_eq j id ≡ true → permits i ≡ Permit.holding t)
        → Kept uuid4 id (Store.begin_delete j t w).1 (
            set_at i
              (if str_eq j id && (Store.begin_delete j t w).0 then Permit.fenced t else Permit.free)
              permits)
    unfolding Store.begin_delete
    begin_delete-Kept j t injective h =
        set_by uuid4 id w by owner permits i j (claimed_by t) set_delete_started (Permit.fenced t)
          (λ b. if str_eq j id && b then Permit.fenced t else Permit.free) sound (λ _. refl)
          (if_missed _ (str_eq j id)) (λ e. rw e refl) (λ e. rw e refl)
          (λ r e m at. (
            some i,
            crosses uuid4 injective (view_of id w by owner) permits sound r at i t (h e) m,
          ))

    release-Kept :
        (j t : String)
        → Injective uuid4
        → (str_eq j id ≡ true → (permits i ≡ Permit.holding t) ⊎ (permits i ≡ Permit.fenced t))
        → Kept uuid4 id (Store.release j t w).1 (set_at i Permit.free permits)
    unfolding Store.release
    release-Kept j t injective h =
        set_by uuid4 id w by owner permits i j (holds t) set_released Permit.free (λ _. Permit.free)
          sound (λ _. refl) refl (λ _. refl) (λ _. refl)
          (λ r e m at. (
            owner,
            releases uuid4 injective (view_of id w by owner) permits sound r at i t (h e) m,
          ))

    resolve-Kept :
        (host : Host) (j : String) (state : CleanupState) (text t : String)
        → Injective uuid4
        → is_terminal state ≡ true
        → Kept uuid4 id (Store.resolve host j state text t w).1 (set_at i Permit.free permits)
    unfolding Store.resolve
    resolve-Kept host j state text t injective h =
        set_by uuid4 id (tick host w) by owner permits i j (holds t)
          (set_resolved state text (now_of host w)) Permit.free (λ _. Permit.free) sound (λ _. refl)
          refl (λ _. refl) (λ _. refl)
          (λ r e m at. (
            owner,
            resolves uuid4 injective (view_of id w by owner) permits sound r at i state text
                (now_of host w) h,
          ))

    resolve_unclaimed-Kept :
        (host : Host) (j : String) (state : CleanupState) (text : String)
        → Injective uuid4
        → is_terminal state ≡ true
        → Kept uuid4 id
            (Store.resolve_unclaimed host j state text w).1
            (set_at i Permit.free permits)
    unfolding Store.resolve_unclaimed
    resolve_unclaimed-Kept host j state text injective h =
        set_by uuid4 id (tick host w) by owner permits i j
          (λ r. is_claimed r.state && has_no_token r) (set_resolved state text (now_of host w))
          Permit.free (λ _. Permit.free) sound (λ _. refl) refl (λ _. refl) (λ _. refl)
          (λ r e m at. (
            owner,
            resolves uuid4 injective (view_of id w by owner) permits sound r at i state text
                (now_of host w) h,
          ))

    -- The DELETE for a row is sent by the pass that has the fence of the row.
    send-Kept :
        (j : String) (sent : World Outside)
        → (str_eq j id ≡ true
            → view_of id sent by owner
              ≡ record (view_of id w by owner) { count = sent_count id w + 1 })
        → (str_eq j id ≡ false → view_of id sent by owner ≡ view_of id w by owner)
        → (str_eq j id ≡ true → (t : String) × (permits i ≡ Permit.fenced t))
        → Kept uuid4 id sent (set_at i (if str_eq j id then Permit.free else permits i) permits)
    send-Kept j sent more same h = elim (Bool-cases (str_eq j id)) [
      | inl e ↦
          let (t, p) = h e in
          rw e (
            by,
            owner,
            subst (λ v. Sound uuid4 v (set_at i Permit.free permits)) (sym (more e))
                (sent_once uuid4 (view_of id w by owner) permits sound i t p),
          )
      | inr e ↦ rw e (
        by,
        owner,
        subst (λ v. Sound uuid4 v (set_at i (permits i) permits)) (sym (same e))
            (keeps_its_permit uuid4 (view_of id w by owner) permits sound i),
      )
    ]

module _ {Outside : Type 0} (host : Host) (provider : Provider Outside) (id : String)
    (injective : Injective host.uuid4) (w : World Outside) (by : ℕ → ℕ) (owner : Option ℕ)
    (permits : ℕ → Permit) (sound : Sound host.uuid4 (view_of id w by owner) permits) (i : ℕ) where
  pub act-Kept :
      (x : Action)
      → Allowed id (permits i) x
      → Kept host.uuid4 id
          (act host provider x w).1
          (set_at i (after id (permits i) x (act host provider x w).0) permits)
  unfolding act
  act-Kept Action.now h = unread host.uuid4 id w by owner permits sound i
  act-Kept Action.new_token h =
      (set_at w.storage.uuids i by, owner, drawn host.uuid4 (view_of id w by owner) permits sound i)
  act-Kept (Action.expired_claims t) h = unread host.uuid4 id w by owner permits sound i
  act-Kept (Action.due t) h = unread host.uuid4 id w by owner permits sound i
  act-Kept (Action.claim j t n) h =
      claim-Kept host.uuid4 id w by owner permits sound i j t n injective h
  act-Kept (Action.begin_delete j t) h =
      begin_delete-Kept host.uuid4 id w by owner permits sound i j t injective h
  act-Kept (Action.release j t) h =
      release-Kept host.uuid4 id w by owner permits sound i j t injective h
  act-Kept (Action.resolve j state text t) h =
      resolve-Kept host.uuid4 id w by owner permits sound i host j state text t injective h
  act-Kept (Action.resolve_unclaimed j state text) h =
      resolve_unclaimed-Kept host.uuid4 id w by owner permits sound i host j state text injective h
  act-Kept (Action.bands_for l) h = unread host.uuid4 id w by owner permits sound i
  act-Kept Action.writes_enabled h = unread host.uuid4 id w by owner permits sound i
  act-Kept (Action.overrides l pms) h = unread host.uuid4 id w by owner permits sound i
  act-Kept (Action.send_delete row body) h =
      send-Kept host.uuid4 id w by owner permits sound i row.id
        (act host provider (Action.send_delete row body) w).1
        (λ e.
          ap (λ c. record (view_of id w by owner) { count = c })
            (count-append_self id row.id w.sent e))
        (λ e.
          ap (λ c. record (view_of id w by owner) { count = c })
            (count-append_other id row.id w.sent e))
        h
  act-Kept (Action.audit event details run_id) h = (
    by,
    owner,
    keeps_its_permit host.uuid4 _ permits
        (drawn_elsewhere host.uuid4 (view_of id w by owner) permits sound _
          (audit_uuids host event details run_id w.storage))
        i,
  )
