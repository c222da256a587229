-- ===== src/Source/MockRepo/Ownership.antt =====
-- Whose sources the operations touch, over the repository in memory.
use ormus.Prelude.{
  ℕ, zero, suc, String, ◌≡◌, refl, sym, ◌≢◌, Option, none, some, Bool, true, false, List, [], ◌∷◌,
  ok, err, arith, ok-injective, and_then-eq-ok, eq_iff, str_eq-of_ne, eq_refl, get_elem?,
  Option-cases, Bool-cases, inl, inr,
}
use ormus.Source.{
  Source, AddSourceRequest, UpdateSourceRequest, UpdateSourceResponse, SourceRef, Store, write_at,
  requested, create_source, update_source, allocate, modify, dereference,
}
use ormus.Source.MockRepo.{
  MockRepo, mock_repo, new_mock_repository, find_source, holds, is_users, user_not_found,
  get_user_source_by_id, insert_source, response,
}
use ormus.Source.MockRepo as Mock

find_source-holds :
    (p : Source → Bool) (heap : List Source) (rs : List SourceRef) (i : ℕ) (r : SourceRef)
    → find_source p heap rs ≡ some (i, r)
    → holds p (get_elem? heap r) ≡ true
unfolding find_source
find_source-holds p heap [] i r h = cc
find_source-holds p heap (q ∷ rs) i r h = elim (Bool-cases (holds p (get_elem? heap q))) [
  | inl e ↦ ground (arith, h, e)
  | inr e ↦ elim (Option-cases (find_source p heap rs)) [
    | inl n ↦ ground (arith, h, e, n)
    | inr (a, n) ↦ ground (arith, h, e, n, find_source-holds p heap rs a.0 a.1)
  ]
]

get_elem?-write_at :
    (r : ℕ) (f : Source → Source) (xs : List Source) (x : Source)
    → get_elem? xs r ≡ some x
    → get_elem? (write_at r f xs) r ≡ some (f x)
get_elem?-write_at r f [] x h = cc
get_elem?-write_at zero f (y ∷ ys) x h = ground (arith, h)
get_elem?-write_at (suc r) f (y ∷ ys) x h = get_elem?-write_at r f ys x h

holds-some :
    (p : Source → Bool) (o : Option Source)
    → holds p o ≡ true
    → (x : Source) × (o ≡ some x) × (p x ≡ true)
holds-some p none h = cc
holds-some p (some x) h = (x, refl, h)

get_user_source_by_id-ok :
    (owner_id id : String) (s : Store MockRepo) (r : SourceRef)
    → (get_user_source_by_id owner_id id s).0 ≡ ok r
    → ((get_user_source_by_id owner_id id s).1 ≡ s)
      × (x : Source) × (get_elem? s.heap r ≡ some x)
      × (x.id ≡ id)
      × (x.owner_id ≡ owner_id)
unfolding get_user_source_by_id
get_user_source_by_id-ok owner_id id s r h = elim (Bool-cases s.repo.has_err) [
  | inl e ↦ absurd (ground (arith, h, e))
  | inr e ↦ elim (Option-cases (find_source (is_users owner_id id) s.heap s.repo.sources)) [
    | inl n ↦ absurd (ground (arith, h, e, n))
    | inr (a, n) ↦
        let same : a.1 ≡ r = ground (arith, h, e, n) in
        let (x, there, users) =
          holds-some (is_users owner_id id) (get_elem? s.heap a.1)
            (find_source-holds (is_users owner_id id) s.heap s.repo.sources a.0 a.1 n) in
        (
          rw (e, n),
          x,
          rw same at there,
          ground (arith, users, eq_iff x.id id),
          ground (arith, users, eq_iff x.owner_id owner_id, eq_iff x.id id),
        )
  ]
]

update_source-ok :
    (id : String) (r : SourceRef) (s : Store MockRepo) (x : Source) (a : UpdateSourceResponse)
    → get_elem? s.heap r ≡ some x
    → (Mock.update_source id r s).0 ≡ ok a
    → a ≡ response x
unfolding Mock.update_source dereference
update_source-ok id r s x a there h = elim (Bool-cases s.repo.has_err) [
  | inl e ↦ absurd (ground (arith, h, e))
  | inr e ↦ elim (Option-cases (find_source (Mock.has_id id) s.heap s.repo.sources)) [
    | inl n ↦ absurd (ground (arith, h, e, n))
    | inr (i, n) ↦ sym (ok-injective (rw (e, n, there) at h))
  ]
]

-- An update that succeeds answers with the four fields of the request, and with the ID that was
-- asked for and the owner who asked.
pub update_source_lem :
    (owner_id id : String) (req : UpdateSourceRequest) (s : Store MockRepo)
    (a : UpdateSourceResponse)
    → (update_source mock_repo owner_id id req s).0 ≡ ok a
    → (a.name ≡ req.name)
      × (a.description ≡ req.description)
      × (a.project_id ≡ req.project_id)
      × (a.status ≡ req.status)
      × (a.id ≡ id)
      × (a.owner_id ≡ owner_id)
unfolding update_source modify
update_source_lem owner_id id req s a h =
    let (r, got, h1, ran) = and_then-eq-ok (get_user_source_by_id owner_id id s) _ a h in
    let (same, x, there, own_id, own_owner) = get_user_source_by_id-ok owner_id id s r got in
    let f = requested mock_repo req in
    let after : Store MockRepo = record s { heap = write_at r f s.heap } in
    let e =
      update_source-ok id r after (f x) a (get_elem?-write_at r f s.heap x there) (rw same at h1) in
    rw e (refl, refl, refl, refl, own_id, own_owner)

-- Every source that the service creates has the empty ID. So of two users who have created one
-- each, the update of the second overwrites the entry of the first, whose source is then not found.
pub create_clash :
    (a b v w : String) (p q : AddSourceRequest) (r : UpdateSourceRequest)
    → a ≢ b
    → let created =
        (create_source mock_repo
          (ok w)
          q
          b
          (create_source mock_repo (ok v) p a (new_mock_repository false)).1).1 in
      let result = update_source mock_repo b "" r created in
      ((get_user_source_by_id a "" created).0 ≡ ok 1)
      × (result.0
          ≡ ok (record {
            id = "";
            write_key = w;
            name = r.name;
            description = r.description;
            project_id = r.project_id;
            owner_id = b;
            status = r.status;
            create_at = 0;
            update_at = 0;
            delete_at = none;
          }))
      × ((get_user_source_by_id a "" result.1).0
          ≡ err (user_not_found "MockRepo.GetUserSourceById"))
unfolding create_source update_source allocate modify dereference get_user_source_by_id
    insert_source Mock.update_source new_mock_repository find_source
create_clash a b v w p q r h =
    let ab = str_eq-of_ne a b h in
    let ba = str_eq-of_ne b a (λ e. h (sym e)) in
    rw (eq_refl a, eq_refl b, ab, ba) (refl, refl, refl)
