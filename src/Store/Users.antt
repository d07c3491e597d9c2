-- ===== src/Store/Users.antt =====
-- The users of internal/store/store.go. An insert is refused where a key has its value already.
use livechat_server.Base.{
  ◌||◌, List, [], ◌∷◌, ◌++◌, map, Text, codes, text_eq, none, some, if◌then◌else◌, keep_if, ℤ, pos,
  negsuc,
}
use livechat_server.Strings.Sorting.{sort_by}
use livechat_server.Store.Models.{Uuid, User}
use livechat_server.Store.Queries.{
  Call, Outcome, ok, not_found, failed, Dialect, find_first, pick, any, take, or_not_found, query,
  statement,
}
use livechat_server.Store.Rows.{UserRow, Tables, same_user}

-- `limit $2`: a negative one is an error of the database.
abbrev pub limited : {A : Type 0} → ℤ → List A → Outcome (List A)
limited (pos n) l = ok (take n l)
limited (negsuc n) l = failed

unfoldable pub insert_user : UserRow → Tables → Tables × Outcome User
insert_user row t =
    if any (same_user row) t.users
    then (t, failed)
    else (record t { users = t.users ++ row ∷ [] }, ok row.user)

module _ (k : Call) where
  unfoldable pub create_user : Text → Text → Text → Text → Tables → Tables × Outcome User
  create_user email username password_hash avatar_url t =
      let user : User = record {
        id = k.id;
        email = email;
        username = username;
        avatar_url = avatar_url;
        created_at = k.now;
      } in
      statement k (insert_user (record { user = user; password_hash = password_hash }) t) t

  unfoldable pub get_user_by_email : Dialect → Text → Tables → Outcome (User × Text)
  get_user_by_email d email t =
      query k
        (elim (pick k.choice
          (keep_if (λ r. text_eq (d.lower r.user.email) (d.lower email)) t.users)) [
            | none ↦ not_found
            | some r ↦ ok (r.user, r.password_hash)
          ])

  unfoldable pub get_user_by_id : Uuid → Tables → Outcome User
  get_user_by_id id t =
      query k (or_not_found (find_first (λ u. text_eq u.id id) (map (λ r. r.user) t.users)))

  unfoldable pub get_user_by_username : Dialect → Text → Tables → Outcome User
  get_user_by_username d username t = query k (
      or_not_found (
        pick k.choice (
          keep_if (λ u. text_eq (d.lower u.username) (d.lower username))
            (map (λ r. r.user) t.users))))

  unfoldable pub search_users : Dialect → Text → ℤ → Tables → Outcome (List User)
  search_users d text limit t =
      let pattern = codes "%" ++ (text ++ codes "%") in
      query k (
        limited limit (
          sort_by (λ a b. d.text_order a.username b.username)
            (keep_if (λ u. d.ilike u.username pattern || d.ilike u.email pattern)
              (map (λ r. r.user) t.users))))
