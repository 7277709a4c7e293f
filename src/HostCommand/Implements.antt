-- ===== src/HostCommand/Implements.antt =====
-- A statement on the table of commands implements the moves: each row that it finds has made moves,
-- each row that it adds was created, and it loses none.
use alcor_device_farm.Prelude.{
  ℕ, ◌≤◌, ◌≡◌, refl, sym, ap, str_eq, ◌&&◌, inl, inr, Bool, true, false, String, Option, none, some,
  List, [], ◌∷◌, ◌++◌, arith, any, str_eq-cases, eq_iff, Bool-cases, subst, eq_refl, Option-cases,
}
use alcor_device_farm.Failure.{
  Error, OnOk, OnOk-ok, OnOk-err, >>-OnOk, guard-ok, not_found, lease_conflict,
}
use alcor_device_farm.Json.{Json}
use alcor_device_farm.Domain.Command.{CommandStatus}
use alcor_device_farm.Store.Rows.{
  find_row, find_row-passes, update_where, count, count-append, count-update_same,
}
use alcor_device_farm.Store.Lookup.{
  update-found, update-none, append-found, append-none, any-count, none-count, least-found,
}
use alcor_device_farm.Repository.Writes.{update_returning, update_returning-ok}
use alcor_device_farm.HostCommand.Table.{
  CommandRow, CreateCommandParams, has_id, has_key, create, new_row, passes_checks, claim_next,
  next_claimable, leased_row, complete, completed_row, extend_lease, extended_row,
  recover_expired_lease, next_abandoned, recovered_row,
}
use alcor_device_farm.HostCommand.Moves.{
  Move, claim, extend, recover, Moves, stay, Moves-trans, one, identity, identity-recovered_row,
  Born, is_outcome,
}

-- from the rows `s` to the rows `t`
pub record Implements (s t : List CommandRow) : Type 0 where
  pub kept :
      (id : String) (r : CommandRow)
      → find_row (has_id id) s ≡ some r
      → (q : CommandRow) × (find_row (has_id id) t ≡ some q) × Moves r q
  pub fresh :
      (id : String) (q : CommandRow)
      → find_row (has_id id) s ≡ none
      → find_row (has_id id) t ≡ some q
      → Born q
  pub keyed : (id : String) → count (has_id id) s ≤ 1 → count (has_id id) t ≤ 1
  pub keys : (host key : String) → count (has_key host key) s ≤ 1 → count (has_key host key) t ≤ 1

pub Implements-refl : (s : List CommandRow) → Implements s s
Implements-refl s = record {
  kept = λ id r e. (r, e, stay r);
  fresh = λ id q e f. cc;
  keyed = λ id h. h;
  keys = λ host key h. h;
}

pub Implements-trans : (s t u : List CommandRow) → Implements s t → Implements t u → Implements s u
Implements-trans s t u a b = record {
  kept = λ id r e.
      let (q, f, m) = a.kept id r e in let (p, g, n) = b.kept id q f in (p, g, Moves-trans m n);
  fresh = λ id q e f. elim (Option-cases (find_row (has_id id) t)) [
    | inl g ↦ b.fresh id q g f
    | inr (r, g) ↦
        let born = a.fresh id r e g in
        let (p, h, m) = b.kept id r g in
        let same : p ≡ q = cc in
        rw (sym same) (record {
          params = born.params;
          clock = born.clock;
          checked = born.checked;
          moves = Moves-trans born.moves m;
        })
  ];
  keyed = λ id h. b.keyed id (a.keyed id h);
  keys = λ host key h. b.keys host key (a.keys host key h);
}

-- An update of rows that makes moves.
module _ (q : CommandRow → Bool) (f : CommandRow → CommandRow)
    (same : (r : CommandRow) → identity (f r) ≡ identity r) where
  keeps_id : (id : String) (r : CommandRow) → q r ≡ true → has_id id (f r) ≡ has_id id r
  keeps_id id r h = ap (λ i. str_eq i.id id) (same r)

  keeps_key :
      (host key : String) (r : CommandRow)
      → q r ≡ true
      → has_key host key (f r) ≡ has_key host key r
  keeps_key host key r h = ap (λ i. str_eq i.host_id host && str_eq i.idempotency_key key) (same r)

  pub update-Implements :
      (rows : List CommandRow)
      → ((id : String) (r : CommandRow)
          → find_row (has_id id) rows ≡ some r
          → q r ≡ true
          → Move r (f r))
      → Implements rows (update_where q f rows)
  update-Implements rows moves = record {
    kept = λ id r e.
        let found = update-found (has_id id) q f (keeps_id id) rows e in
        elim (Bool-cases (q r)) [
          | inl y ↦ (f r, rw found (rw y refl), one (moves id r e y))
          | inr n ↦ (r, rw found (rw n refl), stay r)
        ];
    fresh = λ id r e g. let lost = update-none (has_id id) q f (keeps_id id) rows e in cc;
    keyed = λ id h. omega (arith, count-update_same q (has_id id) f rows (keeps_id id), h);
    keys = λ host key h.
        omega (arith, count-update_same q (has_key host key) f rows (keeps_key host key), h);
  }

-- An insert of a new row.
pub insert-Implements :
    (rows : List CommandRow) (p : CreateCommandParams) (clock : ℕ)
    → passes_checks p ≡ true
    → any (has_id p.id) rows ≡ false
    → find_row (has_key p.host_id p.idempotency_key) rows ≡ none
    → Implements rows (rows ++ new_row p clock ∷ [])
unfolding count
insert-Implements rows p clock checked new unused = record {
  kept = λ id r e. (r, append-found (has_id id) rows (new_row p clock) e, stay r);
  fresh = λ id r e f.
      let last = append-none (has_id id) rows (new_row p clock) e in
      elim (Bool-cases (has_id id (new_row p clock))) [
        | inl y ↦
            let same : new_row p clock ≡ r = ground (arith, last, f, y) in
            rw (sym same) (record { params = p; clock = clock; checked = checked; moves = stay _ })
        | inr n ↦ absurd (ground (arith, last, f, n))
      ];
  keyed = λ id h. elim (str_eq-cases p.id id) [
    | inl (e, y) ↦ ground (
      arith,
      count-append (has_id id) rows (new_row p clock ∷ []),
      any-count (has_id id) rows (subst (λ i. any (has_id i) rows ≡ false) e new),
    )
    | inr (e, n) ↦ ground (arith, count-append (has_id id) rows (new_row p clock ∷ []))
  ];
  keys = λ host key h. elim (Bool-cases (has_key host key (new_row p clock))) [
    | inl y ↦
        let same_host : p.host_id ≡ host = grind (arith, y, eq_iff p.host_id host) in
        let same_key : p.idempotency_key ≡ key = grind (arith, y, eq_iff p.idempotency_key key) in
        let none_found =
          subst (λ k. find_row (has_key host k) rows ≡ none) same_key
            (subst (λ i. find_row (has_key i p.idempotency_key) rows ≡ none) same_host unused) in
        ground (
          arith,
          count-append (has_key host key) rows (new_row p clock ∷ []),
          none-count (has_key host key) rows none_found,
        )
    | inr n ↦ ground (arith, count-append (has_key host key) rows (new_row p clock ∷ []))
  ];
}

abbrev pub IsKeyed : List CommandRow → Type 0
IsKeyed rows = (id : String) → count (has_id id) rows ≤ 1

pub create-Implements :
    (hosts : String → Bool) (rows : List CommandRow) (p : CreateCommandParams) (clock : ℕ)
    → OnOk (λ t. Implements rows t.1) (create hosts rows p clock)
unfolding create
create-Implements hosts rows p clock = >>-OnOk λ checked.
    elim (Option-cases (find_row (has_key p.host_id p.idempotency_key) rows)) [
      | inr (r, e) ↦ rw e (>>-OnOk λ _. OnOk-ok _ (Implements-refl rows))
      | inl e ↦ rw e (
          >>-OnOk λ new. >>-OnOk λ _. >>-OnOk λ _. OnOk-ok _ (
            insert-Implements rows p clock (guard-ok _ _ checked) (ground (arith, guard-ok _ _ new))
              e))
    ]

-- An UPDATE … RETURNING of the row with an id.
returning-Implements :
    (q : CommandRow → Bool) (f : CommandRow → CommandRow) (rows : List CommandRow) (e : Error)
    → ((r : CommandRow) → identity (f r) ≡ identity r)
    → ((id : String) (r : CommandRow)
        → find_row (has_id id) rows ≡ some r
        → q r ≡ true
        → Move r (f r))
    → OnOk (λ t. Implements rows t.1) (update_returning q f rows e)
returning-Implements q f rows e keeps moves = record {
  apply = λ t h.
      let (r, g, out) = update_returning-ok q f rows e h in
      rw out (update-Implements q f keeps rows moves);
}

same_row :
    (rows : List CommandRow) (id : String) {c r : CommandRow}
    → find_row (has_id c.id) rows ≡ some c
    → find_row (has_id id) rows ≡ some r
    → has_id c.id r ≡ true
    → c ≡ r
same_row rows id {c} {r} f e y =
    let one_id : id ≡ c.id =
      grind (arith, find_row-passes (has_id id) rows e, eq_iff r.id id, eq_iff r.id c.id) in
    let g = subst (λ i. find_row (has_id i) rows ≡ some r) one_id e in cc

pub claim_next-Implements :
    (rows : List CommandRow) (locked : String → Bool) (host token : String) (lease clock : ℕ)
    → IsKeyed rows
    → OnOk (λ t. Implements rows t.1) (claim_next rows locked host token lease clock)
unfolding claim_next next_claimable
claim_next-Implements rows locked host token lease clock keyed =
    elim (Option-cases (next_claimable rows locked host)) [
      | inl n ↦ rw (n, claim_next) (OnOk-err _)
      | inr (c, n) ↦
          let (passes, found) =
            least-found (λ a b. has_id a.id b) (λ r. eq_refl r.id) _ _ rows (λ r. keyed r.id) n in
          rw (n, claim_next)
            (returning-Implements (has_id c.id) (leased_row token lease clock) rows not_found
              (λ r. refl)
              (λ id r e y.
                let same : c ≡ r = same_row rows id found e y in
                rw (sym same)
                  (claim c token lease clock (ground (arith, passes)) (ground (arith, passes)))))
    ]

pub recover-Implements :
    (rows : List CommandRow) (locked : String → Bool) (clock : ℕ)
    → IsKeyed rows
    → OnOk (λ t. Implements rows t.1) (recover_expired_lease rows locked clock)
unfolding recover_expired_lease next_abandoned
recover-Implements rows locked clock keyed =
    elim (Option-cases (next_abandoned rows locked clock)) [
      | inl n ↦ rw (n, recover_expired_lease) (OnOk-err _)
      | inr (c, n) ↦
          let (passes, found) =
            least-found (λ a b. has_id a.id b) (λ r. eq_refl r.id) _ _ rows (λ r. keyed r.id) n in
          rw (n, recover_expired_lease)
            (returning-Implements (has_id c.id) (recovered_row clock) rows not_found
              (identity-recovered_row clock)
              (λ id r e y.
                let same : c ≡ r = same_row rows id found e y in
                rw (sym same) (recover c clock (ground (arith, passes)))))
    ]

pub complete-Implements :
    (rows : List CommandRow) (id token : String) (attempt : ℕ) (status : CommandStatus)
    (result : Json) (code : Option String) (retryable : Bool) (clock : ℕ)
    → is_outcome status ≡ true
    → OnOk
        (λ t. Implements rows t.1)
        (complete rows id token attempt status result code retryable clock)
unfolding complete
complete-Implements rows id token attempt status result code retryable clock o =
    returning-Implements _ (completed_row status result code retryable clock) rows lease_conflict
      (λ r. refl)
      (λ i r e y.
        Move.complete r token attempt status result code retryable clock (ground (arith, y)) o)

pub extend_lease-Implements :
    (rows : List CommandRow) (id token : String) (attempt lease clock : ℕ)
    → OnOk (λ t. Implements rows t.1) (extend_lease rows id token attempt lease clock)
unfolding extend_lease
extend_lease-Implements rows id token attempt lease clock =
    returning-Implements _ (extended_row lease clock) rows lease_conflict (λ r. refl)
      (λ i r e y. extend r token attempt lease clock (ground (arith, y)))
