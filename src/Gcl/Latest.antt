-- ===== src/Gcl/Latest.antt =====
-- The updates of the list by builds: the latest build of a version stays, in whatever order they come.
use mathlib.Core.Option
use integration_service.Base.{
  Bool-cases, List, Option, String, [], ap, arith, eq_iff, false, if◌then◌else◌, inl, inr, is_none,
  none, refl, some, sym, true, ℕ, ◌||◌, ◌∙◌, ◌∷◌, ◌≡◌, ◌⊎◌,
}
use integration_service.Gcl.{
  ComponentState, Update, after_update, before, is_version, keep_first, not_found, patch,
  patch_failed, refused, replace_gcl_entry, same_state, send, update_gcl_entry,
}

-- The first entry of a version.
abbrev pub entry_at : String → String → List ComponentState → Option ComponentState
entry_at name version [] = none
entry_at name version (e ∷ l) =
    if is_version name version e then some e else entry_at name version l

-- What an update with a build leaves of an entry of the same version.
unfoldable pub settled : ComponentState → ComponentState → ComponentState
settled e new =
    if same_state e new || before new.last_promoted_build_time e.last_promoted_build_time
    then e
    else new

unfoldable pub updated : List ComponentState → ComponentState → List ComponentState
unfolding update_gcl_entry
updated l new = after_update l (update_gcl_entry (λ patched. none) new l)

send-accepted : (u : Update) → send (λ patched. none) u ≡ u
send-accepted not_found = refl
send-accepted refused = refl
send-accepted (patch l) = refl
send-accepted (patch_failed error) = refl

updated-replace :
    (l : List ComponentState) (new : ComponentState)
    → updated l new ≡ after_update l (replace_gcl_entry new l)
unfolding updated update_gcl_entry
updated-replace l new = ap (after_update l) (send-accepted (replace_gcl_entry new l))

after-keep_first :
    (e : ComponentState) (l : List ComponentState) (u : Update)
    → after_update (e ∷ l) (keep_first e u) ≡ (e ∷ after_update l u)
after-keep_first e l not_found = refl
after-keep_first e l refused = refl
after-keep_first e l (patch l') = refl
after-keep_first e l (patch_failed error) = refl

-- What an update does at the head and further on.
updated-cons :
    (e new : ComponentState) (l : List ComponentState)
    → updated (e ∷ l) new
      ≡ (if is_version new.name new.version e then settled e new ∷ l else e ∷ updated l new)
unfolding replace_gcl_entry settled
updated-cons e new l =
    rw (updated-replace (e ∷ l) new, updated-replace l new)
      (elim (Bool-cases (is_version new.name new.version e)) [
        | inr other ↦ rw (other, replace_gcl_entry) (after-keep_first e l (replace_gcl_entry new l))
        | inl here ↦ rw (here, replace_gcl_entry) (ground arith)
      ])

settled-is_version :
    (e new : ComponentState) (name version : String)
    → is_version name version e ≡ is_version name version new
    → is_version name version (settled e new) ≡ is_version name version e
unfolding settled
settled-is_version e new name version agree =
    elim (Bool-cases
      (same_state e new || before new.last_promoted_build_time e.last_promoted_build_time)) [
        | inl kept ↦ rw kept refl
        | inr replaced ↦ rw replaced (sym agree)
      ]

version_refl : (e : ComponentState) → is_version e.name e.version e ≡ true
version_refl e = ground (arith, eq_iff e.name e.name, eq_iff e.version e.version)

-- Two entries of one version are of the same versions.
version-agree :
    (e new : ComponentState) (name version : String)
    → is_version new.name new.version e ≡ true
    → is_version name version e ≡ is_version name version new
version-agree e new name version here =
    let names : e.name ≡ new.name = ground (arith, eq_iff e.name new.name) in
    let versions : e.version ≡ new.version =
      ground (arith, eq_iff e.version new.version, eq_iff e.name new.name) in
    rw (names, versions) refl

entry_at-updated :
    (new : ComponentState) (l : List ComponentState)
    → entry_at new.name new.version (updated l new)
      ≡ Option.map (λ e. settled e new) (entry_at new.name new.version l)
unfolding updated replace_gcl_entry
entry_at-updated new [] = refl
entry_at-updated new (e ∷ l) = elim (Bool-cases (is_version new.name new.version e)) [
  | inr other ↦ rw (updated-cons e new l, other, other) (entry_at-updated new l)
  | inl here ↦
      rw
        (
          updated-cons e new l,
          here,
          settled-is_version e new new.name new.version
              (version-agree e new new.name new.version here),
          here,
        )
        refl
]

entry_at-other :
    (new : ComponentState) (l : List ComponentState) (name version : String)
    → is_version name version new ≡ false
    → entry_at name version (updated l new) ≡ entry_at name version l
unfolding updated replace_gcl_entry
entry_at-other new [] name version other = refl
entry_at-other new (e ∷ l) name version other =
    elim (Bool-cases (is_version new.name new.version e)) [
      | inl here ↦
          let agree = version-agree e new name version here in
          rw (updated-cons e new l, here, settled-is_version e new name version agree, agree, other)
            refl
      | inr differs ↦
          rw (updated-cons e new l, differs, entry_at-other new l name version other) refl
    ]

-- The list after one update per build, in their order.
unfoldable pub after_builds : List ComponentState → List ComponentState → List ComponentState
unfolding updated
after_builds l [] = l
after_builds l (new ∷ builds) = after_builds (updated l new) builds

abbrev pub HasTime : ComponentState → Type 0
HasTime e = is_none e.last_promoted_build_time ≡ false

abbrev pub HaveTimes : List ComponentState → Type 0
HaveTimes [] = Unit
HaveTimes (b ∷ builds) = HasTime b × HaveTimes builds

-- x is the entry e or one of the builds.
abbrev pub IsOneOf : ComponentState → ComponentState → List ComponentState → Type 0
IsOneOf x e [] = x ≡ e
IsOneOf x e (b ∷ builds) = (x ≡ b) ⊎ IsOneOf x e builds

-- No build of the version is later than x.
abbrev pub NoneLater : String → String → ComponentState → List ComponentState → Type 0
NoneLater name version x [] = Unit
NoneLater name version x (b ∷ builds) =
    (is_version name version b ≡ true
      → before x.last_promoted_build_time b.last_promoted_build_time ≡ false)
    × NoneLater name version x builds

abbrev pub IsLatest :
    String → String → ComponentState → ComponentState → List ComponentState → Type 0
IsLatest name version e x builds =
    IsOneOf x e builds
    × (before x.last_promoted_build_time e.last_promoted_build_time ≡ false)
    × NoneLater name version x builds

before_trans :
    (a b c : Option ℕ)
    → is_none b ≡ false
    → before a b ≡ false
    → before b c ≡ false
    → before a c ≡ false
before_trans a none c h ab bc = cc
before_trans none (some b) c h ab bc = refl
before_trans (some a) (some b) none h ab bc = refl
before_trans (some a) (some b) (some c) h ab bc = ground arith

before_some : (a b : Option ℕ) → before a b ≡ true → is_none b ≡ false
before_some none b h = cc
before_some (some a) none h = cc
before_some (some a) (some b) h = refl

before_asym : (a b : Option ℕ) → before a b ≡ true → before b a ≡ false
before_asym none b h = cc
before_asym (some a) none h = cc
before_asym (some a) (some b) h = ground arith

before_irrefl : (a : Option ℕ) → before a a ≡ false
before_irrefl none = refl
before_irrefl (some a) = ground arith

-- An update with a build that has a time is no earlier than either.
settled-later :
    (e new : ComponentState)
    → HasTime new
    → HasTime (settled e new)
      × (before (settled e new).last_promoted_build_time e.last_promoted_build_time ≡ false)
      × (before (settled e new).last_promoted_build_time new.last_promoted_build_time ≡ false)
unfolding settled
settled-later e new timed =
    let stays = before_some new.last_promoted_build_time e.last_promoted_build_time in
    let turned = before_asym new.last_promoted_build_time e.last_promoted_build_time in
    elim (Bool-cases
      (same_state e new || before new.last_promoted_build_time e.last_promoted_build_time)) [
        | inl kept ↦
            let earlier : before new.last_promoted_build_time e.last_promoted_build_time ≡ true =
              ground arith in
            rw kept (stays earlier, before_irrefl e.last_promoted_build_time, turned earlier)
        | inr replaced ↦
            let later : before new.last_promoted_build_time e.last_promoted_build_time ≡ false =
              ground arith in
            rw replaced (timed, later, before_irrefl new.last_promoted_build_time)
      ]

IsOneOf-settled :
    (e new x : ComponentState) (builds : List ComponentState)
    → IsOneOf x (settled e new) builds
    → IsOneOf x e (new ∷ builds)
unfolding settled
IsOneOf-settled e new x [] h =
    elim (Bool-cases
      (same_state e new || before new.last_promoted_build_time e.last_promoted_build_time)) [
        | inl kept ↦ inr (h ∙ rw kept refl)
        | inr replaced ↦ inl (h ∙ rw replaced refl)
      ]
IsOneOf-settled e new x (b ∷ builds) (inl h) = inr (inl h)
IsOneOf-settled e new x (b ∷ builds) (inr h) = elim (IsOneOf-settled e new x builds h) [
  | inl first ↦ inl first
  | inr rest ↦ inr (inr rest)
]

found_after :
    (e new : ComponentState) (l : List ComponentState) (name version : String)
    → is_version name version new ≡ true
    → entry_at name version l ≡ some e
    → entry_at name version (updated l new) ≡ some (settled e new)
found_after e new l name version same found =
    let names : name ≡ new.name = ground (arith, eq_iff new.name name) in
    let versions : version ≡ new.version =
      ground (arith, eq_iff new.version version, eq_iff new.name name) in
    let found' : entry_at new.name new.version l ≡ some e = rw (← names, ← versions) found in
    rw (names, versions, entry_at-updated new l, found') refl

-- The entry of a version that is in the list, after updates by builds that all have a start time, each
-- of which the API server accepts: it is the first entry or the state of one of those builds, and neither the first entry nor any build
-- of this version is later.
pub after_builds-IsLatest :
    (builds l : List ComponentState) (name version : String) (e : ComponentState)
    → HaveTimes builds
    → entry_at name version l ≡ some e
    → (x : ComponentState) × (entry_at name version (after_builds l builds) ≡ some x)
      × IsLatest name version e x builds
unfolding after_builds
after_builds-IsLatest [] l name version e timed found =
    (e, found, (refl, before_irrefl e.last_promoted_build_time, tt))
after_builds-IsLatest (new ∷ builds) l name version e timed found =
    elim (Bool-cases (is_version name version new)) [
      | inr other ↦
          let rest =
            after_builds-IsLatest builds (updated l new) name version e timed.1
              (entry_at-other new l name version other ∙ found) in
          (rest.0, rest.1, (inr rest.2.0, rest.2.1, ((λ same. cc), rest.2.2)))
      | inl same ↦
          let later = settled-later e new timed.0 in
          let rest =
            after_builds-IsLatest builds (updated l new) name version (settled e new) timed.1
              (found_after e new l name version same found) in
          (
            rest.0,
            rest.1,
            (
              IsOneOf-settled e new rest.0 builds rest.2.0,
              before_trans rest.0.last_promoted_build_time (settled e new).last_promoted_build_time
                  e.last_promoted_build_time later.0 rest.2.1 later.1,
              (
                (λ s.
                    before_trans rest.0.last_promoted_build_time
                      (settled e new).last_promoted_build_time new.last_promoted_build_time later.0
                      rest.2.1 later.2),
                rest.2.2,
              ),
            ),
          )
    ]
