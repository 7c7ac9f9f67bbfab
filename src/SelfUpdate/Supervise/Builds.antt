-- ===== src/SelfUpdate/Supervise/Builds.antt =====
-- Which staged builds a settled update leaves.
use retune.Base.{
  Bool-cases, List, String, [], arith, eq_iff, false, if◌then◌else◌, inl, inr, none, refl, str_eq,
  ◌||◌, ◌∙◌, ◌∷◌, ◌≡◌, true,
}
use retune.SelfUpdate.Record.{Record}
use retune.SelfUpdate.Device.{without, Device, Entry, World, read_builds, remove_build}
use retune.SelfUpdate.Device.Keeps.{
  Keeps, Keeps-atomic, Keeps-ignore, Keeps-look, Keeps-pure, Keeps-try,
}
use retune.SelfUpdate.Supervise.{is_old_build, prune_entries, prune_old_builds}

-- The entries named for the version that won and for the one that it replaced.
abbrev pub kept : Record → List Entry → List Entry
kept rec [] = []
kept rec (e ∷ es) =
    if str_eq e.name rec.to_version || str_eq e.name rec.from_version
    then e ∷ kept rec es
    else kept rec es

kept-without :
    (rec : Record) (name : String) (es : List Entry)
    → str_eq name rec.to_version ≡ false
    → str_eq name rec.from_version ≡ false
    → kept rec (without name es) ≡ kept rec es
unfolding without
kept-without rec name [] p q = refl
kept-without rec name (e ∷ es) p q = ground (
  arith,
  eq_iff e.name name,
  eq_iff e.name rec.to_version,
  eq_iff e.name rec.from_version,
  eq_iff name rec.to_version,
  eq_iff name rec.from_version,
  kept-without rec name es p q,
)

old_names :
    (rec : Record) (e : Entry)
    → is_old_build rec e ≡ true
    → (str_eq e.name rec.to_version ≡ false) × (str_eq e.name rec.from_version ≡ false)
unfolding is_old_build
old_names rec e old = ground arith

module _ (rec : Record) (ks : List Entry) where
  abbrev Same : Device → Type 0
  Same d = kept rec d.builds ≡ ks

  remove_build-Same :
      (name : String)
      → str_eq name rec.to_version ≡ false
      → str_eq name rec.from_version ≡ false
      → Keeps Same (remove_build name)
  unfolding remove_build
  remove_build-Same name p q = Keeps-atomic _ λ d h. kept-without rec name d.builds p q ∙ h

  prune_entries-Same : (es : List Entry) → Keeps Same (prune_entries rec es)
  unfolding prune_entries
  prune_entries-Same [] = Keeps-pure none
  prune_entries-Same (e ∷ es) =
      let rest = prune_entries-Same es in
      elim (Bool-cases (is_old_build rec e)) [
        | inl old ↦ rw old (
            let (p, q) = old_names rec e old in
            Keeps-ignore _ _ (remove_build-Same e.name p q) rest)
        | inr new ↦ rw new rest
      ]

-- However its calls end, pruning leaves every entry named for the version that won or for the one
-- that it replaced.
pub kept-prune_old_builds :
    (rec : Record) (w : World)
    → kept rec (prune_old_builds rec w).1.device.builds ≡ kept rec w.device.builds
unfolding prune_old_builds read_builds
kept-prune_old_builds rec w =
    (Keeps-try _ _ _ (Keeps-atomic _ λ d h. h) (λ e. Keeps-pure _)
        (Keeps-look _ λ d. prune_entries-Same rec (kept rec w.device.builds) d.builds)).at
      w refl
