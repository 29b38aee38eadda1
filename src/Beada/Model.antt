-- ===== src/Beada/Model.antt =====
-- kernel/beadapanel/src/beada-model.c: the table of panels and its three lookups.
use packages.Base.{
  ℕ, Bool, true, false, Option, none, some, List, [], ◌∷◌, ◌==◌, ◌&&◌, if◌then◌else◌,
}

-- `struct beada_model_entry`; a name is its bytes.
pub record ModelEntry : Type 0 where
  pub os_version : ℕ
  pub width : ℕ
  pub height : ℕ
  pub width_mm : ℕ
  pub height_mm : ℕ
  pub name : List ℕ

abbrev row : ℕ → ℕ → ℕ → ℕ → ℕ → List ℕ → ModelEntry
row code w h wm hm name = record {
  os_version = code;
  width = w;
  height = h;
  width_mm = wm;
  height_mm = hm;
  name = name;
}

abbrev pub beada_model_table : List ModelEntry
beada_model_table =
    row 0 800 480 188 118 (55 ∷ [])
    ∷ row 1 800 480 121 76 (53 ∷ [])
    ∷ row 2 480 1280 67 181 (54 ∷ [])
    ∷ row 3 320 480 70 99 (51 ∷ [])
    ∷ row 4 480 800 78 116 (52 ∷ [])
    ∷ row 10 800 480 121 76 (53 ∷ 67 ∷ [])
    ∷ row 11 800 480 108 65 (53 ∷ 84 ∷ [])
    ∷ row 12 800 480 110 62 (55 ∷ 67 ∷ [])
    ∷ row 13 480 320 62 40 (51 ∷ 67 ∷ [])
    ∷ row 14 800 480 94 56 (52 ∷ 67 ∷ [])
    ∷ row 15 1280 480 161 60 (54 ∷ 67 ∷ [])
    ∷ row 16 1280 480 161 60 (54 ∷ 83 ∷ [])
    ∷ row 17 480 480 73 73 (50 ∷ [])
    ∷ row 18 480 480 90 90 (50 ∷ 87 ∷ [])
    ∷ row 19 1280 480 190 59 (55 ∷ 83 ∷ [])
    ∷ row 20 480 854 77 140 (53 ∷ 83 ∷ [])
    ∷ row 21 480 1920 69 235 (56 ∷ [])
    ∷ row 22 440 1920 58 253 (49 ∷ 49 ∷ [])
    ∷ row 23 462 1920 55 226 (57 ∷ [])
    ∷ row 24 480 1920 54 219 (89 ∷ [])
    ∷ row 25 440 1920 58 253 (88 ∷ [])
    ∷ row 26 462 1920 55 226 (90 ∷ [])
    ∷ []

abbrev pub beada_model_fallback : ModelEntry
beada_model_fallback = row 255 800 480 108 65 (63 ∷ [])

-- The loop of the three lookups: the first entry that passes the test.
unfoldable pub find_entry : (ModelEntry → Bool) → List ModelEntry → Option ModelEntry
find_entry test [] = none
find_entry test (e ∷ es) = if test e then some e else find_entry test es

unfoldable pub or_fallback : Option ModelEntry → ModelEntry
or_fallback none = beada_model_fallback
or_fallback (some e) = e

-- `beada_lookup_model`.
unfoldable pub lookup_model : ℕ → ModelEntry
lookup_model code = or_fallback (find_entry (λ e. e.os_version == code) beada_model_table)

-- `strcmp` of two strings is 0.
unfoldable pub same_string : List ℕ → List ℕ → Bool
same_string [] [] = true
same_string [] (c ∷ cs) = false
same_string (b ∷ bs) [] = false
same_string (b ∷ bs) (c ∷ cs) = (b == c) && same_string bs cs

-- `beada_lookup_model_by_modelid`.
unfoldable pub lookup_model_by_modelid : List ℕ → Option ModelEntry
lookup_model_by_modelid id = find_entry (λ e. same_string id e.name) beada_model_table

-- `beada_lookup_model_by_res`.
unfoldable pub lookup_model_by_res : ℕ → ℕ → Option ModelEntry
lookup_model_by_res width height =
    find_entry (λ e. (e.width == width) && (e.height == height)) beada_model_table
