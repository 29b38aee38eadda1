-- ===== src/Beada/Tests/Messages.antt =====
-- Examples of the messages and models: each theorem with hypotheses, applied where they hold.
use packages.Base.{ℕ, ◌≡◌, refl, false, Option, some, List, [], ◌∷◌, arith, length}
use packages.Beada.Checksum.{checksum16, pl_fill_tag, sl_fill_tag}
use packages.Beada.Verify.{fill_tag-closes}
use packages.Beada.Model.{
  ModelEntry, find_entry, same_string, lookup_model_by_modelid, lookup_model_by_res,
}

-- A message of type 1 with the format "video", and one of 21 bytes.
abbrev video : Option (List ℕ)
video = some (118 ∷ 105 ∷ 100 ∷ 101 ∷ 111 ∷ [])

fill_tag-closes_example :
    (length (pl_fill_tag false 1 video) ≡ 270)
    × (checksum16 (pl_fill_tag false 1 video) ≡ 0)
    × (length (sl_fill_tag false 1 21) ≡ 20)
    × (checksum16 (sl_fill_tag false 1 21) ≡ 0)
fill_tag-closes_example =
    fill_tag-closes 1 21 video
      (omega arith, (omega arith, (omega arith, (omega arith, (omega arith, tt)))))

abbrev six : ModelEntry
six = record {
  os_version = 2;
  width = 480;
  height = 1280;
  width_mm = 67;
  height_mm = 181;
  name = 54 ∷ [];
}

found_by_res : lookup_model_by_res 480 1280 ≡ some six
unfolding lookup_model_by_res find_entry
found_by_res = refl

found_by_name : lookup_model_by_modelid (54 ∷ []) ≡ some six
unfolding lookup_model_by_modelid find_entry same_string
found_by_name = refl
