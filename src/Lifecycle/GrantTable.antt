-- ===== src/Lifecycle/GrantTable.antt =====
-- What the calls do to the table of grants: nothing, one grant more, or one grant revoked.
use threadmesh.Prelude.{
  ℕ, ◌≡◌, refl, ◌∙◌, inl, inr, Bool, true, not, ◌||◌, String, Option, none, some, List, [], ◌∷◌,
  ◌++◌, arith, ◌==◌, string_eq, nat_eq, pair_eq, every, ok, Option-cases, Result-cases,
}
use threadmesh.Vocabulary.{ActorType, is_present}
use threadmesh.Policy.{Envelope, Grant}
use threadmesh.Coordinator.{GrantRow, GrantDocument, Db, Principal, Platform, latest_grant}
use threadmesh.Coordinator.Mailbox.{control_plane}
use threadmesh.Coordinator.Grants.{
  find_grant, mark_revoked, install_grant, replayed_or_installed, grant_row,
}

-- Every grant with the id is revoked, and there is one.
abbrev pub is_revoked_if : String → GrantRow → Bool
is_revoked_if id g = not (g.grant.grant_id == id) || is_present g.grant.revoked_at

pub record IsDead (id : String) (grants : List GrantRow) : Type 0 where
  pub exists : is_present (find_grant id grants) ≡ true
  pub all_revoked : every (is_revoked_if id) grants ≡ true

-- The table after a call.
pub data GrantsMove (before after : List GrantRow) : Type 0 where
  same : after ≡ before → GrantsMove before after
  added :
      (g : GrantRow)
      → find_grant g.grant.grant_id before ≡ none
      → after ≡ before ++ g ∷ []
      → GrantsMove before after
  marked : (id : String) (now : ℕ) → after ≡ mark_revoked id now before → GrantsMove before after

mark_revoked-exists :
    (id other : String) (now : ℕ) (grants : List GrantRow)
    → is_present (find_grant id (mark_revoked other now grants)) ≡ is_present (find_grant id grants)
unfolding mark_revoked find_grant
mark_revoked-exists id other now [] = refl
mark_revoked-exists id other now (g ∷ grants) =
    ground (arith, mark_revoked-exists id other now grants)

mark_revoked-keeps :
    (id other : String) (now : ℕ) (grants : List GrantRow)
    → every (is_revoked_if id) grants ≡ true
    → every (is_revoked_if id) (mark_revoked other now grants) ≡ true
unfolding mark_revoked
mark_revoked-keeps id other now [] h = refl
mark_revoked-keeps id other now (g ∷ grants) h =
    ground (arith, mark_revoked-keeps id other now grants)

mark_revoked-all :
    (id : String) (now : ℕ) (grants : List GrantRow)
    → every (is_revoked_if id) (mark_revoked id now grants) ≡ true
unfolding mark_revoked
mark_revoked-all id now [] = refl
mark_revoked-all id now (g ∷ grants) = ground (arith, mark_revoked-all id now grants)

find_grant-append :
    (id : String) (grants : List GrantRow) (g : GrantRow)
    → is_present (find_grant id grants) ≡ true
    → is_present (find_grant id (grants ++ g ∷ [])) ≡ true
unfolding find_grant
find_grant-append id [] g h = ground arith
find_grant-append id (x ∷ grants) g h = ground (arith, find_grant-append id grants g)

every-append_one :
    (id : String) (grants : List GrantRow) (g : GrantRow)
    → every (is_revoked_if id) grants ≡ true
    → is_revoked_if id g ≡ true
    → every (is_revoked_if id) (grants ++ g ∷ []) ≡ true
every-append_one id [] g h here = ground arith
every-append_one id (x ∷ grants) g h here = ground (arith, every-append_one id grants g)

-- A dead grant stays dead.
pub GrantsMove-IsDead :
    (id : String) (before after : List GrantRow)
    → GrantsMove before after
    → IsDead id before
    → IsDead id after
GrantsMove-IsDead id before after (same e) d = rw e d
GrantsMove-IsDead id before after (added g fresh e) d = rw e (record {
  exists = find_grant-append id before g d.exists;
  all_revoked =
      every-append_one id before g d.all_revoked
        (ground (arith, d.exists, string_eq.beq_iff g.grant.grant_id id));
})
GrantsMove-IsDead id before after (marked other now e) d = rw e (record {
  exists = mark_revoked-exists id other now before ∙ d.exists;
  all_revoked = mark_revoked-keeps id other now before d.all_revoked;
})

pub mark_revoked-IsDead :
    (id : String) (now : ℕ) (grants : List GrantRow)
    → is_present (find_grant id grants) ≡ true
    → IsDead id (mark_revoked id now grants)
mark_revoked-IsDead id now grants h = record {
  exists = mark_revoked-exists id id now grants ∙ h;
  all_revoked = mark_revoked-all id now grants;
}

-- The latest grant of a channel is one of the table.
pub latest_grant-IsDead :
    (e : Envelope) (grants : List GrantRow) (g : Grant) (id : String)
    → latest_grant e grants ≡ some g
    → g.grant_id ≡ id
    → every (is_revoked_if id) grants ≡ true
    → is_present g.revoked_at ≡ true
unfolding latest_grant
latest_grant-IsDead e [] g id h is all = absurd (ground arith)
latest_grant-IsDead e (x ∷ grants) g id h is all = elim (Option-cases (latest_grant e grants)) [
  | inl n ↦ ground (arith, string_eq.beq_iff x.grant.grant_id id)
  | inr (r, m) ↦
      ground (arith, string_eq.beq_iff x.grant.grant_id id, latest_grant-IsDead e grants g id)
]

installed-GrantsMove :
    (x : Platform) (g : GrantDocument) (owner : ActorType × String) (db db' : Db)
    (o : Option GrantRow)
    → find_grant g.grant.grant_id db.grants ≡ o
    → replayed_or_installed x g owner db o ≡ ok db'
    → GrantsMove db.grants db'.grants
installed-GrantsMove x g owner db db' (some row) found h = same (ground arith)
installed-GrantsMove x g owner db db' none found h = added (grant_row x g) found (ground arith)

pub install_grant-GrantsMove :
    (x : Platform) (g : GrantDocument) (p : Principal) (db db' : Db)
    → install_grant x g p db ≡ ok db'
    → GrantsMove db.grants db'.grants
unfolding install_grant
install_grant-GrantsMove x g p db db' h = elim (Result-cases (control_plane p)) [
  | inl (owner, e) ↦
      installed-GrantsMove x g owner db db' (find_grant g.grant.grant_id db.grants) refl
        (ground arith)
  | inr (error, e) ↦ absurd (ground arith)
]
