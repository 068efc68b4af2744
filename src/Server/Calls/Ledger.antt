-- ===== src/Server/Calls/Ledger.antt =====
-- The cache and the log of the client threads, whether the log takes the records or not.
use dist_cache.Prelude.{◌+◌, length}
use dist_cache.Prelude.{
  All-split, ℕ, ◌≡◌, refl, ap, sym, ◌∙◌, Bool, true, List, [], ◌∷◌, ◌++◌, Option, none, some, map,
  arith, ok, Bool-cases, inl, inr,
}
use dist_cache.Text.{Text}
use dist_cache.Wal.{Wal, Record, append}
use dist_cache.Server.{Server}
use dist_cache.Server.Client.{Session, command}
use dist_cache.Server.Writes
use dist_cache.Server.Writes.{
  Writers, IsTracked, CanLog, tally_pending, tally_pending-append, apply-IsTracked, log-IsTracked,
  Step-IsTracked,
}
use dist_cache.Server.Calls.{
  Stage, Service, Call, enter, allow, refuse, count_refused, write, look, log, log_fails, measure,
  report_success, report_failure, count_success, count_failure, leave, record_of, pends, service,
}
use dist_cache.Server.Calls.Invariant.{retrack, pends-split, command-IsWrite}

-- A server with its log as it is when it has been opened.
abbrev as_open : Server → Server
as_open server = record server { wal = record server.wal { is_open = true } }

-- The clients' writes, with those that the log has refused as writes that wait for ever.
abbrev pub ledger : {D : Type 0} → Service D → List Record → Writers
ledger s lost = record {
  server = as_open s.session.server;
  pending = map some lost ++ map pends s.stages;
  history = s.history;
}

append_opened :
    (w w' : Wal) (op key value : Text) (can_open : Bool)
    → append w op key value can_open ≡ ok w'
    → append (record w { is_open = true }) op key value can_open ≡ ok (record w' { is_open = true })
unfolding append
append_opened w w' op key value can_open e = elim (Bool-cases w.is_open) [
  | inl opened ↦ ground (arith, opened)
  | inr shut ↦ ground (arith, shut)
]

pending-split :
    (lost : List Record) (before : List Stage) (at : Stage) (after : List Stage)
    → map some lost ++ map pends (before ++ at ∷ after)
      ≡ (map some lost ++ map pends before) ++ pends at ∷ map pends after
pending-split [] before at after = pends-split before at after
pending-split (r ∷ lost) before at after =
    ap (λ ps. some r ∷ ps) (pending-split lost before at after)

-- A write that the log refuses waits for ever.
refuse-IsTracked :
    (capacity : ℕ) (w : Writers) (before after : List (Option Record)) (r : Record)
    → IsTracked capacity w
    → w.pending ≡ before ++ some r ∷ after
    → IsTracked capacity (record w { pending = some r ∷ before ++ none ∷ after })
refuse-IsTracked capacity w before after r v at =
    let (write_, put) = All-split CanLog before (some r) after (rw at at v.waiting) in
    record {
      valid = v.valid;
      size = v.size;
      tidy = v.tidy;
      opened = v.opened;
      waiting = (write_, put none tt);
      logged = λ p. omega (
        arith,
        v.logged p,
        ap (tally_pending p) at,
        tally_pending-append p before (none ∷ after),
        tally_pending-append p before (some r ∷ after),
      );
    }

-- The log has refused a record in the call.
abbrev pub fails :
    {D : Type 0} {add : D → D → D} {s s' : Session D} {h h' : List Record} {at at' : Stage}
    → Call add s h at s' h' at'
    → ℕ
fails (log_fails can_open e) = 1
fails _ = 0

module _ {D : Type 0} (add : D → D → D) (capacity : ℕ) (before after : List Stage) where
  abbrev Kept : Session D → List Record → Stage → List Record → Type 0
  Kept s h at lost = IsTracked capacity (ledger (service before after s h at) lost)

  -- A call that touches neither the cache nor the log.
  untouched :
      (s s' : Session D) (h lost : List Record) (at at' : Stage)
      → Kept s h at lost
      → s'.server ≡ s.server
      → pends at' ≡ pends at
      → Kept s' h at' lost
  untouched s s' h lost at at' v server same =
      retrack capacity (ledger (service before after s h at) lost) _ v (ap as_open server)
        (pending-split lost before at' after
          ∙ ap (λ p. (map some lost ++ map pends before) ++ p ∷ map pends after) same
          ∙ sym (pending-split lost before at after))
        refl

  pub Call-Kept :
      {s s' : Session D} {h h' : List Record} {at at' : Stage} (lost : List Record)
      (made : Call add s h at s' h' at')
      → Kept s h at lost
      → (lost' : List Record) × Kept s' h' at' lost' × (length lost' ≡ length lost + fails made)
  Call-Kept {s} {s'} {h} {h'} {at} {at'} lost enter v =
      (lost, untouched s s' h lost at at' v refl refl, omega arith)
  Call-Kept {s} {s'} {h} {h'} {at} {at'} lost (allow now lt e) v =
      (lost, untouched s s' h lost at at' v refl refl, omega arith)
  Call-Kept {s} {s'} {h} {h'} {at} {at'} lost (refuse now lt e) v =
      (lost, untouched s s' h lost at at' v refl refl, omega arith)
  Call-Kept {s} {s'} {h} {h'} {at} {at'} lost count_refused v =
      (lost, untouched s s' h lost at at' v refl refl, omega arith)
  Call-Kept {s} {s'} {h} {h'} {at} {at'} lost (write {i} r {cache} known other e) v = (
    lost,
    retrack capacity _ (ledger (service before after s' h' at') lost)
        (apply-IsTracked capacity (ledger (service before after s h at) lost)
          (map some lost ++ map pends before) (map pends after) (record_of (command i r)) r.now
          cache v (pending-split lost before at after) (command-IsWrite i r known other) e)
        refl (pending-split lost before at' after) refl,
    omega arith,
  )
  Call-Kept {s} {s'} {h} {h'} {at} {at'} lost (look {i} r is_get) v = (
    lost,
    retrack capacity _ (ledger (service before after s' h at') lost)
        (Step-IsTracked capacity (Writes.Step.look (command i r).key r.now r.later) v) refl
        (pending-split lost before at' after ∙ sym (pending-split lost before at after)) refl,
    omega arith,
  )
  Call-Kept {s} {s'} {h} {h'} {at} {at'} lost (log {i} {r} can_open {wal} e) v = (
    lost,
    retrack capacity _ (ledger (service before after s' h at') lost)
        (log-IsTracked capacity (ledger (service before after s h at) lost)
          (map some lost ++ map pends before) (map pends after) r can_open
          (record wal { is_open = true }) v (pending-split lost before at after)
          (append_opened s.server.wal wal r.0 r.1 r.2 can_open e))
        refl (pending-split lost before at' after) refl,
    omega arith,
  )
  Call-Kept {s} {s'} {h} {h'} {at} {at'} lost (log_fails {i} {r} can_open e) v = (
    r ∷ lost,
    retrack capacity _ (ledger (service before after s' h at') (r ∷ lost))
        (refuse-IsTracked capacity (ledger (service before after s h at) lost)
          (map some lost ++ map pends before) (map pends after) r v
          (pending-split lost before at after))
        refl (pending-split (r ∷ lost) before at' after) refl,
    omega arith,
  )
  Call-Kept {s} {s'} {h} {h'} {at} {at'} lost (measure ms) v =
      (lost, untouched s s' h lost at at' v refl refl, omega arith)
  Call-Kept {s} {s'} {h} {h'} {at} {at'} lost report_success v =
      (lost, untouched s s' h lost at at' v refl refl, omega arith)
  Call-Kept {s} {s'} {h} {h'} {at} {at'} lost (report_failure now) v =
      (lost, untouched s s' h lost at at' v refl refl, omega arith)
  Call-Kept {s} {s'} {h} {h'} {at} {at'} lost count_success v =
      (lost, untouched s s' h lost at at' v refl refl, omega arith)
  Call-Kept {s} {s'} {h} {h'} {at} {at'} lost count_failure v =
      (lost, untouched s s' h lost at at' v refl refl, omega arith)
  Call-Kept {s} {s'} {h} {h'} {at} {at'} lost (leave all) v =
      (lost, untouched s s' h lost at at' v refl refl, omega arith)
