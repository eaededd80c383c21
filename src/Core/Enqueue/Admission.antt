-- ===== src/Core/Enqueue/Admission.antt =====
-- Which requests are admitted, and what each answer leaves in the store.
use paavo.Prelude.{
  ℕ, ◌≤◌, ltb, ◌≡◌, refl, subst, true, List, [], ◌∷◌, ◌++◌, Memᴰ, head, tail, cases_cons, ◌⊎◌, inl,
  inr, arith, Bool-cases, count_where,
}
use paavo.Proto.Board.{BoardSelector, BoardSpec, matches}
use paavo.Db.Store.{Database, sqlite, primary_key}
use paavo.Db.Job.{has_id}
use paavo.Db.Job.Moves.{new_row, insert}
use paavo.Core.Enqueue.{
  CoreError, over_ceiling, selector_never_matches, db, EnqueueRequest, Outcome,
  selector_matches_any, validate_enqueue, enqueue_job,
}

-- Within the ceiling, for a board that is in the inventory, and with an id that no job has.
pub record IsAdmissible (inventory : List BoardSpec) (req : EnqueueRequest) (store : Database)
    : Type 0 where
  pub within : req.hard_max_ms ≤ req.daemon_ceiling_ms
  pub fits_some : (b : BoardSpec) × Memᴰ b inventory × (matches req.board_selector b ≡ true)
  pub fresh : count_where (has_id req.id) store.jobs ≡ 0

selector_matches_any-some :
    (sel : BoardSelector) (bs : List BoardSpec)
    → selector_matches_any sel bs ≡ true
    → (b : BoardSpec) × Memᴰ b bs × (matches sel b ≡ true)
unfolding selector_matches_any
selector_matches_any-some sel [] h = cc
selector_matches_any-some sel (b ∷ bs) h = elim (Bool-cases (matches sel b)) [
  | inl hit ↦ (b, head refl, hit)
  | inr miss ↦
      let (c, m, e) = selector_matches_any-some sel bs (ground (arith, miss)) in (c, tail m, e)
]

selector_matches_any-of_mem :
    (sel : BoardSelector) (bs : List BoardSpec) (b : BoardSpec)
    → Memᴰ b bs
    → matches sel b ≡ true
    → selector_matches_any sel bs ≡ true
unfolding selector_matches_any
selector_matches_any-of_mem sel [] b m h = elim m [ ]
selector_matches_any-of_mem sel (c ∷ bs) b m h = elim (cases_cons m) [
  | inl e ↦ rw (subst (λ x. matches sel x ≡ true) e h)
  | inr m' ↦ ground (arith, selector_matches_any-of_mem sel bs b m' h)
]

module _ (inventory : List BoardSpec) (req : EnqueueRequest) (now_ms : ℕ) (store : Database) where
  -- A request is admitted exactly if its limit is within the ceiling, some board of the inventory
  -- matches and its id is new; then one submitted row is added, and otherwise the store Stays as it
  -- was.
  pub enqueue_job-cases :
      (IsAdmissible inventory req store
        × (enqueue_job inventory req now_ms store ≡ (
          record store { jobs = store.jobs ++ new_row req.new now_ms ∷ [] },
          Outcome.ok req.id,
        )))
      ⊎ ((¬ IsAdmissible inventory req store)
          × ((e : CoreError) × (enqueue_job inventory req now_ms store ≡ (store, Outcome.err e))))
  unfolding enqueue_job validate_enqueue insert
  enqueue_job-cases = elim (Bool-cases (ltb req.daemon_ceiling_ms req.hard_max_ms)) [
    | inl over ↦ inr (
      λ a. ground (arith, a.within, over),
      (
        over_ceiling req.hard_max_ms req.daemon_ceiling_ms,
        rw (over, enqueue_job, validate_enqueue),
      ),
    )
    | inr within ↦ elim (Bool-cases (selector_matches_any req.board_selector inventory)) [
      | inr unmatched ↦ inr (
        λ a.
            let (b, m, h) = a.fits_some in
            cc (unmatched, selector_matches_any-of_mem req.board_selector inventory b m h),
        (
          selector_never_matches req.board_selector,
          rw (within, unmatched, enqueue_job, validate_enqueue),
        ),
      )
      | inl matched ↦ elim (Bool-cases (ltb 0 (count_where (has_id req.id) store.jobs))) [
        | inl taken ↦ inr (
          λ a. ground (arith, a.fresh, taken),
          (
            db (sqlite primary_key),
            rw (within, matched, taken, enqueue_job, validate_enqueue, insert),
          ),
        )
        | inr free ↦ inl (
          record {
            within = ground (arith, within);
            fits_some = selector_matches_any-some req.board_selector inventory matched;
            fresh = ground (arith, free);
          },
          rw (within, matched, free, enqueue_job, validate_enqueue, insert),
        )
      ]
    ]
  ]
