-- ===== src/Notifier/BitbucketServer/Address.antt =====
-- Which clone addresses the parser of internal/notifier/bitbucketserver.go takes, and the path of
-- the commits that it makes of them.
use Prim.Native.String.{[] as nil, ◌∷◌ as cons}
use text.Mathlib.TextLemmas.{
  nil-append, cons-append, append_assoc, append_cancel_right, cons-ne-nil,
}
use notification_controller.Prelude.{
  String, Char, ◌<>◌, ◌==◌, ◌≡◌, ◌≢◌, ◌⊎◌, refl, sym, ap, ◌∙◌, subst, inl, inr, false, ◌&&◌, not,
  none, some, ok, err, trim_suffix, cut_last_index, strip, strip-append, strip_sound, arith, eq_iff,
  eq_cases, Option-cases,
}
use notification_controller.Prelude.Slash.{HasNoSlash, cut_slash, split_plain, split-append}
use notification_controller.Notifier.Client.{Url}
use notification_controller.Notifier.BitbucketServer.{commits_path, commits_url}

longer_test : (c : Char) (t : String) → (cons c (t <> ".git") == ".git") ≡ false
longer_test c t = elim (eq_cases (cons c (t <> ".git")) ".git") [
  | inl same ↦
      absurd (
        cons-ne-nil c t (append_cancel_right (cons c t) nil ".git" (cons-append c t ".git" ∙ same)))
  | inr other ↦ other
]

trim_suffix-append : (t : String) → trim_suffix (t <> ".git") ".git" ≡ t
unfolding trim_suffix
trim_suffix-append nil = refl
trim_suffix-append (cons c t) = rw (cons-append, longer_test c t, trim_suffix-append t) refl

-- No part of a text without a slash is "/scm/".
cut_plain :
    (p r : String)
    → HasNoSlash p
    → cut_last_index r "/scm/" ≡ none
    → cut_last_index (p <> r) "/scm/" ≡ none
unfolding cut_last_index strip
cut_plain nil r plain h = rw nil-append h
cut_plain (cons c p) r (other, plain) h = rw (cons-append, cut_plain p r plain h) (ground arith)

cut_of_plain : (p : String) → HasNoSlash p → cut_last_index p "/scm/" ≡ none
unfolding cut_last_index strip
cut_of_plain nil plain = refl
cut_of_plain (cons c p) (other, plain) = rw (cut_of_plain p plain) (ground arith)

scm_plain : HasNoSlash "scm"
scm_plain = ground arith

-- A text without a slash has none in the middle.
slash_inside : (q s : String) → HasNoSlash (q <> ("/" <> s)) → ⊥
slash_inside nil s plain = (rw (nil-append, cons-append "/" nil s) at plain).0 refl
slash_inside (cons c q) s plain = slash_inside q s (rw (cons-append c q) at plain).1

scm_text : (s : String) → "scm/" <> s ≡ "scm" <> ("/" <> s)
scm_text s = append_assoc "scm" "/" s

-- The first part of a text is "scm" if it starts with "scm/".
strip_other :
    (project : String) (r : String)
    → HasNoSlash project
    → project ≢ "scm"
    → strip (project <> ("/" <> r)) "scm/" ≡ none
strip_other project r plain other = elim (Option-cases (strip (project <> ("/" <> r)) "scm/")) [
  | inl h ↦ h
  | inr (s, h) ↦ absurd (
      other
        (cut_slash project "scm" r s plain scm_plain
          (strip_sound (project <> ("/" <> r)) "scm/" s h ∙ scm_text s)).0)
]

strip_plain : (p : String) → HasNoSlash p → strip p "scm/" ≡ none
strip_plain p plain = elim (Option-cases (strip p "scm/")) [
  | inl h ↦ h
  | inr (s, h) ↦ absurd (
      slash_inside "scm" s
        (subst (λ q. HasNoSlash q) (strip_sound p "scm/" s h ∙ scm_text s) plain))
]

cut_slash_step :
    (r : String)
    → strip r "scm/" ≡ none
    → cut_last_index r "/scm/" ≡ none
    → cut_last_index ("/" <> r) "/scm/" ≡ none
unfolding cut_last_index strip
cut_slash_step r h h' = rw (cons-append "/" nil r, nil-append, h', h) refl

-- The last "/scm/" is found after any text.
cut_last-append :
    (context rest : String)
    → cut_last_index ("scm/" <> rest) "/scm/" ≡ none
    → cut_last_index (context <> ("/scm/" <> rest)) "/scm/" ≡ some (context, rest)
unfolding cut_last_index strip
cut_last-append nil rest h =
    rw (nil-append, cons-append "/" "scm/" rest, h, strip-append "scm/" rest) refl
cut_last-append (cons c context) rest h = rw (cons-append, cut_last-append context rest h) refl

-- What the parser makes of the path of a clone address.
module _ (quote : String → String) (u : Url) (context repo : String) where
  -- An address of a context, a project and a repository.
  abbrev pub clone_path : String → String
  clone_path project = (context <> ("/scm/" <> (project <> ("/" <> repo)))) <> ".git"

  module _ (web : (u.scheme ≡ "http") ⊎ (u.scheme ≡ "https")) (plain_repo : HasNoSlash repo) where
    scheme_fine : (not (u.scheme == "http") && not (u.scheme == "https")) ≡ false
    scheme_fine = ground (arith, eq_iff u.scheme "http", eq_iff u.scheme "https", web)

    cut_project :
        (project : String)
        → HasNoSlash project
        → project ≢ "scm"
        → cut_last_index (context <> ("/scm/" <> (project <> ("/" <> repo)))) "/scm/"
          ≡ some (context, project <> ("/" <> repo))
    cut_project project plain other = cut_last-append context (project <> ("/" <> repo)) (
        rw (scm_text (project <> ("/" <> repo))) (
          cut_plain "scm" _ scm_plain (
            cut_slash_step _ (strip_other project repo plain other) (
              cut_plain project _ plain (
                cut_slash_step repo (strip_plain repo plain_repo)
                  (cut_of_plain repo plain_repo))))))

    cut_scm :
        cut_last_index (context <> ("/scm/" <> ("scm" <> ("/" <> repo)))) "/scm/"
        ≡ some (context <> "/scm", repo)
    cut_scm =
        let moved =
          ap (λ t. context <> t)
            (append_assoc "/scm" "/" ("scm" <> ("/" <> repo))
              ∙ ap (λ t. "/scm" <> t)
                  (sym (append_assoc "/" "scm" ("/" <> repo)) ∙ sym (append_assoc "/scm" "/" repo)))
          ∙ sym (append_assoc context "/scm" ("/scm/" <> repo)) in
        rw moved (
          cut_last-append (context <> "/scm") repo (
            rw (scm_text repo) (
              cut_plain "scm" _ scm_plain (
                cut_slash_step repo (strip_plain repo plain_repo) (cut_of_plain repo plain_repo)))))

    -- The address of a repository whose project is not "scm" is parsed to the path of the commits
    -- of this project and repository, under the same context.
    pub commits_url-clone_path :
        (project : String)
        → HasNoSlash project
        → project ≢ "scm"
        → u.path ≡ clone_path project
        → commits_url quote u ≡ ok (record u { path = commits_path context (project, repo) })
    unfolding commits_url
    commits_url-clone_path project plain other path =
        rw
          (
            path,
            scheme_fine,
            trim_suffix-append,
            cut_project project plain other,
            split-append project repo plain,
            split_plain repo plain_repo,
          )
          refl

    -- The address of a repository of the project "scm" is refused.
    pub commits_url-scm :
        u.path ≡ clone_path "scm"
        → commits_url quote u
          ≡ err ("could not parse git address: invalid repository id " <> quote repo)
    unfolding commits_url
    commits_url-scm path =
        rw (path, scheme_fine, trim_suffix-append, cut_scm, split_plain repo plain_repo) refl
