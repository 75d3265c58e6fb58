-- ===== src/Persistence/Versions.antt =====
-- What the guarded updates of tutor/persistence/repo.py do to the rows: the optimistic version, and
-- the rows that a write leaves alone.
use cortex_tutor.Prelude.{
  ℕ, ◌≡◌, refl, ap, ◌∙◌, ◌≢◌, true, false, List, [], ◌∷◌, map, arith, ◌==◌, if◌then◌else◌, if_true,
  if_false, filter, count,
}
use cortex_tutor.Persistence.Models.{Session, Db, Clock}
use cortex_tutor.Persistence.Sessions.{has_id, at_version, StateColumns, with_state, save_state}
use cortex_tutor.Prelude.Filter.{
  filter-single_holds, filter-map, count-map, map-filter_fixed, count_and, count_zero, map_if-none,
}

-- The rows with an identifier.
abbrev pub rows_of : ℕ → Db → List Session
rows_of id db = filter (has_id id) db.sessions

stale-with_state :
    (clock : Clock) (id version : ℕ) (c : StateColumns) (r : Session)
    → at_version id version (if at_version id version r then with_state clock version c r else r)
      ≡ false
unfolding with_state
stale-with_state clock id version c r = ground arith

id-with_state :
    (clock : Clock) (other id version : ℕ) (c : StateColumns) (r : Session)
    → has_id other (if at_version id version r then with_state clock version c r else r)
      ≡ has_id other r
unfolding with_state
id-with_state clock other id version c r = ground arith

-- Of two writers that read the same version only the first saves: whatever the second would write,
-- it is refused, and changes no row.
pub save_state-twice :
    (clock clock' : Clock) (id version : ℕ) (c c' : StateColumns) (db : Db)
    → let db' = (save_state clock id version c db).1 in
      save_state clock' id version c' db' ≡ (false, db')
unfolding save_state
save_state-twice clock clock' id version c c' db =
    let rows =
      map (λ s. if at_version id version s then with_state clock version c s else s) db.sessions in
    let none_left : count (at_version id version) rows ≡ 0 =
      count-map (at_version id version) (λ s. false) _ db.sessions
        (stale-with_state clock id version c)
      ∙ count_zero (λ s. false) db.sessions (λ s. refl) in
    rw
      (none_left, map_if-none (at_version id version) (with_state clock' version c') rows none_left)
      refl

-- A save that is accepted met exactly one row; one that is refused met none or several.
pub save_state-rows :
    (clock : Clock) (id version : ℕ) (c : StateColumns) (db : Db) (s : Session)
    → rows_of id db ≡ s ∷ []
    → s.version ≡ version
    → ((save_state clock id version c db).0 ≡ true)
      × (rows_of id (save_state clock id version c db).1 ≡ with_state clock version c s ∷ [])
      × ((other : ℕ)
          → other ≢ id
          → rows_of other (save_state clock id version c db).1 ≡ rows_of other db)
unfolding save_state count
save_state-rows clock id version c db s one current =
    let own = filter-single_holds (has_id id) s db.sessions one in
    (
      rw (count_and (has_id id) (λ r. r.version == version) db.sessions, one)
          (rw current (ground arith)),
      filter-map (has_id id) _ db.sessions (id-with_state clock id id version c)
          ∙ ap (map (λ r. if at_version id version r then with_state clock version c r else r)) one
          ∙ ap (λ (r : Session). r ∷ [])
              (if_true (at_version id version s) (with_state clock version c s) s (ground arith)),
      λ other ne.
          filter-map (has_id other) _ db.sessions (id-with_state clock other id version c)
          ∙ map-filter_fixed (has_id other) _ db.sessions (λ r h.
            if_false (at_version id version r) (with_state clock version c r) r (ground arith)),
    )
