-- ===== src/Beada/Lookup.antt =====
-- kernel/beadapanel/src/beada-model.c: the three lookups agree.
use packages.Base.{
  ℕ, ◌≡◌, refl, ap, Bool, true, Option, none, some, List, [], ◌∷◌, ◌==◌, ◌&&◌, All, arith,
  Bool-cases, inl, inr,
}
use packages.Beada.Model.{
  ModelEntry, beada_model_table, find_entry, or_fallback, lookup_model, same_string,
  lookup_model_by_modelid, lookup_model_by_res,
}

abbrev entry_or : ModelEntry → Option ModelEntry → ModelEntry
entry_or d none = d
entry_or d (some e) = e

-- What holds of all entries holds of the one that is found, which passes the test.
pub find_entry-All :
    (P : ModelEntry → Type 0) (test : ModelEntry → Bool) (es : List ModelEntry) (e : ModelEntry)
    → All P es
    → find_entry test es ≡ some e
    → P e × (test e ≡ true)
unfolding find_entry
find_entry-All P test [] e h f = absurd (cc)
find_entry-All P test (d ∷ es) e h f = elim (Bool-cases (test d)) [
  | inl passed ↦ let same : d ≡ e = ap (entry_or d) (rw passed at f) in rw (← same) (h.0, passed)
  | inr failed ↦ find_entry-All P test es e h.1 (rw failed at f)
]

abbrev IsOwn : ModelEntry → Type 0
IsOwn e = lookup_model e.os_version ≡ e

table-IsOwn : All IsOwn beada_model_table
unfolding lookup_model find_entry or_fallback
table-IsOwn = (
  refl,
  (
    refl,
    (
      refl,
      (
        refl,
        (
          refl,
          (
            refl,
            (
              refl,
              (
                refl,
                (
                  refl,
                  (
                    refl,
                    (
                      refl,
                      (
                        refl,
                        (
                          refl,
                          (
                            refl,
                            (refl, (refl, (refl, (refl, (refl, (refl, (refl, (refl, tt)))))))),
                          ),
                        ),
                      ),
                    ),
                  ),
                ),
              ),
            ),
          ),
        ),
      ),
    ),
  ),
)

-- An entry that is found by its resolution has that resolution, an entry that is found by its name
-- has that name, and the code of each leads back to the same entry.
pub lookup-lookup_model :
    (width height : ℕ) (id : List ℕ) (e f : ModelEntry)
    → lookup_model_by_res width height ≡ some e
    → lookup_model_by_modelid id ≡ some f
    → (e.width ≡ width)
      × (e.height ≡ height)
      × (lookup_model e.os_version ≡ e)
      × (same_string id f.name ≡ true)
      × (lookup_model f.os_version ≡ f)
unfolding lookup_model_by_res lookup_model_by_modelid
lookup-lookup_model width height id e f he hf =
    let by_res =
      find_entry-All IsOwn (λ e. (e.width == width) && (e.height == height)) beada_model_table e
        table-IsOwn he in
    let by_name =
      find_entry-All IsOwn (λ e. same_string id e.name) beada_model_table f table-IsOwn hf in
    (ground (arith, by_res.1), ground (arith, by_res.1), by_res.0, by_name.1, by_name.0)
