-- ===== src/Hr/Links.antt =====
-- What the records of personnel refer to: positions, and the accounts of users, of which each has
-- one kept record at most.
use arka_erp.Base.{
  ℕ, ◌≤◌, ◌≡◌, true, false, Option, none, some, List, [], ◌∷◌, All, inl, inr, Bool-cases,
  Option-cases, arith, any, filter, not, ◌==◌, &&-eq-true, All-map_pred, is_known, is_known-filter,
  refers, leb,
}
use arka_erp.Base.Tables.{find_by, update_by, All-update_by, update_by-none}
use arka_erp.Base.Trash.{
  is_kept, if_kept, trashed, untrashed, if_kept_keeps, untrashed_keeps, holders-update_by,
  holders-trashed,
}
use arka_erp.Envelope.{Cipher}
use arka_erp.Hr.{
  Personnel, personnel_rows, position_ids, Staff, Context, login_holders, is_sole_login,
  is_unique_in, may_return, code_holders, edited, find_row, new_personnel, Call, run,
}
use arka_erp.Hr.Keeps.{run_keeps, is_referring, with_position}

-- A record's user and position exist.
abbrev pub Linked : Staff → Personnel → Type 0
Linked b p =
    (is_known p.user_id b.users ≡ true) × (is_known p.position_id (position_ids b.positions) ≡ true)

abbrev pub AllLinked : Staff → Type 0
AllLinked b = All (Linked b) b.personnel

-- No user has two kept records.
abbrev pub IsSole : Staff → Type 0
IsSole b = (user : ℕ) → login_holders user b.personnel ≤ 1

anything : (cs : List (Context × Call)) → All (λ c. Unit {0}) cs
anything [] = tt
anything (c ∷ cs) = (tt, anything cs)

removed-Linked :
    (id : ℕ) (b : Staff) (ps : List Personnel)
    → any (λ p. refers id p.position_id) ps ≡ false
    → All (Linked b) ps
    → All
        (λ p.
          (is_known p.user_id b.users ≡ true)
          × (is_known p.position_id (position_ids (filter (λ q. not (q.id == id)) b.positions))
              ≡ true))
        ps
removed-Linked id b [] free h = tt
removed-Linked id b (p ∷ ps) free h = elim (Bool-cases (refers id p.position_id)) [
  | inl hit ↦ absurd (ground (arith, hit, free))
  | inr miss ↦ (
    (h.0.0, is_known-filter (λ q. q.id) id p.position_id b.positions miss h.0.1),
    removed-Linked id b ps (rw miss at free) h.1,
  )
]

added-Linked :
    (id : ℕ) (o : Option ℕ) (ids : List ℕ) → is_known o ids ≡ true → is_known o (id ∷ ids) ≡ true
added-Linked id none ids h = h
added-Linked id (some i) ids h = ground (arith, h)

updated-Linked :
    (b : Staff) (f : Personnel → Personnel) (p q : Personnel) (o : Option Personnel)
    → o ≡ some p
    → o ≡ some q
    → is_referring (f p) b ≡ true
    → Linked b (f q)
updated-Linked b f p q o found there known =
    let same : p ≡ q = ground (arith, found, there) in
    &&-eq-true (is_known (f q).user_id b.users)
      (is_known (f q).position_id (position_ids b.positions)) (rw same at known)

-- If every record of personnel, in the trash too, has a user and a position that exist or none,
-- then after any sequence of requests to the endpoints of HR every record has.
pub run-AllLinked :
    (cipher : Cipher) (cs : List (Context × Call)) (b : Staff)
    → AllLinked b
    → AllLinked (run cipher cs b)
run-AllLinked cipher cs b h =
    run_keeps AllLinked (λ _. Unit {0}) cipher
      (λ m dto b h.
        All-map_pred (Linked b) (Linked (with_position m dto b)) b.personnel
          (λ p q. (q.0, added-Linked m.new_id p.position_id (position_ids b.positions) q.1)) h)
      (λ id b free h. removed-Linked id b b.personnel free h)
      (λ m dto salary b _ _ known h. (&&-eq-true _ _ known, h))
      (λ m id dto salary b p _ found _ _ known h.
        All-update_by (λ p. p.id) (Linked b) id (edited cipher m dto salary) b.personnel h
          (λ q there _.
            updated-Linked b (edited cipher m dto salary) p q (find_row id b) found there known))
      (λ m id reason b h.
        All-update_by (λ p. p.id) (Linked b) id
          (if_kept personnel_rows (trashed personnel_rows m.now m.actor reason)) b.personnel h
          (λ p _ was.
            if_kept_keeps personnel_rows (Linked b) (trashed personnel_rows m.now m.actor reason) p
              (λ q. q) was))
      (λ id b _ h.
        All-update_by (λ p. p.id) (Linked b) id (untrashed personnel_rows) b.personnel h
          (λ p _ was. untrashed_keeps personnel_rows (Linked b) p (λ q. q) was))
      cs b (anything cs) h

sole_here :
    (user : ℕ) (o : Option ℕ) (rows : List Personnel)
    → refers user o ≡ true
    → is_sole_login o rows ≡ true
    → login_holders user rows ≤ 1
sole_here user none rows hit sole = absurd (ground arith)
sole_here user (some i) rows hit sole =
    let same : i ≡ user = ground (arith, hit) in
    let few : leb (login_holders i rows) 1 ≡ true = sole in
    let fewer : leb (login_holders user rows) 1 ≡ true = rw same at few in ground (arith, fewer)

-- The row that a statement wrote is the only one with its user.
updated-sole :
    (user id : ℕ) (f : Personnel → Personnel) (rows : List Personnel) (p : Personnel)
    → find_by (λ p. p.id) id rows ≡ some p
    → is_sole_login (f p).user_id (update_by (λ p. p.id) id f rows) ≡ true
    → login_holders user rows ≤ 1
    → login_holders user (update_by (λ p. p.id) id f rows) ≤ 1
updated-sole user id f rows p found sole h = elim (Bool-cases (refers user (f p).user_id)) [
  | inl hit ↦ sole_here user (f p).user_id (update_by (λ p. p.id) id f rows) hit sole
  | inr miss ↦ ground (
    arith,
    h,
    miss,
    holders-update_by personnel_rows (λ p. refers user p.user_id) id f rows p found,
  )
]

created-sole :
    (user : ℕ) (p : Personnel) (rows : List Personnel)
    → is_unique_in p (p ∷ rows) ≡ true
    → login_holders user rows ≤ 1
    → login_holders user (p ∷ rows) ≤ 1
created-sole user p rows sole h = elim (Bool-cases (refers user p.user_id)) [
  | inl hit ↦ sole_here user p.user_id (p ∷ rows) hit (&&-eq-true _ _ sole).1
  | inr miss ↦ ground (arith, h, miss)
]

restored-sole :
    (user id : ℕ) (rows : List Personnel)
    → may_return
        (find_by (λ p. p.id) id rows)
        (update_by (λ p. p.id) id (untrashed personnel_rows) rows)
      ≡ true
    → login_holders user rows ≤ 1
    → login_holders user (update_by (λ p. p.id) id (untrashed personnel_rows) rows) ≤ 1
restored-sole user id rows free h = elim (Option-cases (find_by (λ p. p.id) id rows)) [
  | inl lost ↦ rw (update_by-none (λ p. p.id) id (untrashed personnel_rows) rows lost) h
  | inr (p, found) ↦ elim (Bool-cases (is_kept personnel_rows p)) [
    | inl here ↦ ground (
      arith,
      h,
      here,
      holders-update_by personnel_rows (λ p. refers user p.user_id) id (untrashed personnel_rows)
          rows p found,
    )
    | inr gone ↦
        let free_one = rw gone at (rw found at free) in
        updated-sole user id (untrashed personnel_rows) rows p found
          (rw gone
            (&&-eq-true
              (leb
                (code_holders p.employee_code
                  (update_by (λ p. p.id) id (untrashed personnel_rows) rows))
                1)
              (is_sole_login p.user_id (update_by (λ p. p.id) id (untrashed personnel_rows) rows))
              free_one).1)
          h
  ]
]

-- No user has two kept records after any sequence of requests to the endpoints of HR, if none has
-- before.
pub run-IsSole :
    (cipher : Cipher) (cs : List (Context × Call)) (b : Staff) → IsSole b → IsSole (run cipher cs b)
run-IsSole cipher cs b h =
    run_keeps IsSole (λ _. Unit {0}) cipher (λ m dto b h. h) (λ id b _ h. h)
      (λ m dto salary b _ sole _ h user.
        created-sole user (new_personnel cipher m dto salary) b.personnel sole (h user))
      (λ m id dto salary b p _ found here sole _ h user.
        updated-sole user id (edited cipher m dto salary) b.personnel p found
          (&&-eq-true _ _ sole).1 (h user))
      (λ m id reason b h user.
        let fewer =
          holders-trashed personnel_rows (λ p. refers user p.user_id) id m.now m.actor reason
            b.personnel in
        omega (arith, fewer, h user))
      (λ id b free h user. restored-sole user id b.personnel free (h user)) cs b (anything cs) h
