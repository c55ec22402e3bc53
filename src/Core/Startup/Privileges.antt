-- ===== src/Core/Startup/Privileges.antt =====
-- `drop_root` of src/core/yta_event_loop.c.
use yotta.Prelude.{
  ℕ, ◌≡◌, ◌⊎◌, refl, sym, ap, ◌∙◌, inl, inr, Bool, true, false, not, Option, some, none, List, [],
  ◌∷◌, ◌==◌, if◌then◌else◌,
}
use yotta.Core.Outcome.{Outcome, done, exited, done-injective}
use yotta.Core.Startup.{Privilege, set_gid, set_uid, PrivilegeAnswers, become, drop_root}

-- What a process that goes on has done about its rights: nothing, where there is no user `nobody`, or
-- taken over the rights of that user, the group first.
abbrev pub Became : Option (ℕ × ℕ) → Bool → Bool → List Privilege → Type 0
Became nobody gid_set uid_set ps =
    ((nobody ≡ none) × (ps ≡ []))
    ⊎ ((who : ℕ × ℕ) × (nobody ≡ some who)
        × (gid_set ≡ true)
        × (uid_set ≡ true)
        × (ps ≡ set_gid who.0 ∷ set_uid who.1 ∷ []))

become-Became :
    (nobody : Option (ℕ × ℕ)) (gid_set uid_set : Bool) (ps : List Privilege)
    → become nobody gid_set uid_set ≡ done ps
    → Became nobody gid_set uid_set ps
unfolding become
become-Became none g u ps h = inl (refl, done-injective (sym h))
become-Became (some who) true true ps h = inr (who, refl, refl, refl, done-injective (sym h))
become-Became (some who) true false ps h =
    absurd (let bad : ◌≡◌ {A = Outcome (List Privilege)} (exited 1) (done ps) = h in cc)
become-Became (some who) false u ps h =
    absurd (let bad : ◌≡◌ {A = Outcome (List Privilege)} (exited 1) (done ps) = h in cc)

-- A process of the group 0 that goes on behind `drop_root` has the rights of `nobody`, by accepted calls
-- and the group first, or there is no such user and its rights are as before.
pub drop_root-Became :
    (a : PrivilegeAnswers) (ps : List Privilege)
    → a.gid ≡ 0
    → drop_root a ≡ done ps
    → Became a.nobody a.gid_set a.uid_set ps
unfolding drop_root
drop_root-Became a ps root h =
    become-Became a.nobody a.gid_set a.uid_set ps (
      sym (ap (λ g. if not (g == 0) then done [] else become a.nobody a.gid_set a.uid_set) root)
      ∙ h)
