-- ===== src/Beada/Info/Usable.antt =====
-- beada-pipeline.c: the panel that the probe settles on.
use packages.Base.{
  ℕ, ◌≤◌, ◌≡◌, ◌⊎◌, inl, inr, refl, Bool, true, false, Option, none, some, List, All, length,
  if-cases, not, ◌==◌, ◌||◌, ltb, arith,
}
use packages.Base.Errno.{Ret}
use packages.Beada.Model.{
  ModelEntry, beada_model_table, find_entry, or_fallback, lookup_model, same_string,
  lookup_model_by_modelid, lookup_model_by_res,
}
use packages.Beada.Lookup.{find_entry-All}
use packages.Beada.Link.Device.{bulk_result}
use packages.Beada.Info.Query.{
  PanelInfo, Info, Scan, Answers, scanned, apply_model, or_by_res, find_panel, panel_of,
  use_iproduct, try_iproduct, set_panel, fits_model_id, detect_by_name, query_device_info,
}

-- Sides that a screen can have.
abbrev IsSide : ℕ → Type 0
IsSide n = (1 ≤ n) × (n ≤ 4096)

abbrev HasSides : ModelEntry → Type 0
HasSides e = IsSide e.width × IsSide e.height

abbrev IsUsable : Info → Type 0
IsUsable i = IsSide i.panel.width × IsSide i.panel.height

table-HasSides : All HasSides beada_model_table
table-HasSides = ground arith

found-HasSides :
    (test : ModelEntry → Bool) (e : ModelEntry)
    → find_entry test beada_model_table ≡ some e
    → HasSides e
found-HasSides test e f = (find_entry-All HasSides test beada_model_table e table-HasSides f).0

or_fallback-HasSides :
    (o : Option ModelEntry)
    → ((e : ModelEntry) → o ≡ some e → HasSides e)
    → HasSides (or_fallback o)
unfolding or_fallback
or_fallback-HasSides none h = ground arith
or_fallback-HasSides (some e) h = h e refl

lookup_model-HasSides : (code : ℕ) → HasSides (lookup_model code)
unfolding lookup_model
lookup_model-HasSides code = or_fallback-HasSides _ (found-HasSides (λ e. e.os_version == code))

or_by_res-HasSides :
    (o : Option ModelEntry) (w h : ℕ) (e : ModelEntry)
    → ((d : ModelEntry) → o ≡ some d → HasSides d)
    → or_by_res o w h ≡ some e
    → HasSides e
unfolding or_by_res lookup_model_by_res
or_by_res-HasSides (some d) w h e found f = found e f
or_by_res-HasSides none w h e found f = found-HasSides _ e f

find_panel-HasSides :
    (id : List ℕ) (w h : ℕ) (e : ModelEntry) → find_panel id w h ≡ some e → HasSides e
unfolding find_panel lookup_model_by_modelid
find_panel-HasSides id w h e f =
    or_by_res-HasSides (lookup_model_by_modelid id) w h e
      (found-HasSides (λ d. same_string id d.name)) f

panel_of-IsSide :
    (o : Option ModelEntry) (w h : ℕ) (p : PanelInfo)
    → ((e : ModelEntry) → o ≡ some e → HasSides e)
    → IsSide w
    → IsSide h
    → IsSide (panel_of o w h p).width × IsSide (panel_of o w h p).height
unfolding panel_of apply_model
panel_of-IsSide none w h p found wide high = ground arith
panel_of-IsSide (some e) w h p found wide high = found e refl

-- The detection by name failed or found a usable panel.
abbrev IsOutcome : Ret × Info → Type 0
IsOutcome (ret, i) = ((ret == 0) ≡ false) ⊎ IsUsable i

-- There is a result, and its panel is usable.
abbrev pub HasUsable : Option Info → Type 0
HasUsable o = (i : Info) × (o ≡ some i) × IsUsable i

detect_by_name-HasUsable : (r : Ret × Info) → IsOutcome r → HasUsable (detect_by_name (some r))
unfolding detect_by_name set_panel apply_model
detect_by_name-HasUsable (ret, i) (inl failed) =
    (set_panel (lookup_model 255) i, rw failed refl, lookup_model-HasSides 255)
detect_by_name-HasUsable (ret, i) (inr usable) =
    if-cases (λ j. HasUsable (some j)) (ret == 0) (λ found. (i, refl, usable))
      (λ failed. (set_panel (lookup_model 255) i, refl, lookup_model-HasSides 255))

use_iproduct-IsOutcome : (s : Scan) (i : Info) → IsOutcome (use_iproduct s i)
unfolding use_iproduct
use_iproduct-IsOutcome s i =
    if-cases IsOutcome (not (s.conversions == 2)) (λ bad. inl refl)
      (λ two.
        if-cases IsOutcome (s.w == 0 || (s.h == 0 || (ltb 4096 s.w || ltb 4096 s.h)))
          (λ out. inl refl)
          (λ fits. inr (
            panel_of-IsSide (find_panel s.id s.w s.h) s.w s.h i.panel
              (find_panel-HasSides s.id s.w s.h) (ground arith) (ground arith))))

iproduct-HasUsable :
    (a : Answers) (i : Info)
    → fits_model_id (a.scan a.string) ≡ true
    → HasUsable (detect_by_name (try_iproduct a i))
unfolding try_iproduct
iproduct-HasUsable a i fits = rw fits (
    if-cases (λ o. HasUsable (detect_by_name o)) (not (a.string_ret == 0))
      (λ failed. detect_by_name-HasUsable (a.string_ret, i) (inl (ground arith)))
      (λ read.
        detect_by_name-HasUsable _ (use_iproduct-IsOutcome (scanned (a.scan a.string) a.stack) i)))

-- If the word that the scanner finds in the string descriptor has at most 7 characters, then whatever
-- else the device, the descriptor and the scanner answer, and whatever the variables hold that are not
-- stored, the probe writes past no buffer and settles on a panel with sides between 1 and 4096.
pub query_device_info-IsUsable :
    (a : Answers) (i : Info) → length (a.scan a.string).id ≤ 7 → HasUsable (query_device_info a i)
unfolding query_device_info set_panel apply_model fits_model_id
query_device_info-IsUsable a i short =
    let fits : fits_model_id (a.scan a.string) ≡ true = ground (arith, short) in
    if-cases HasUsable (not i.has_statuslink) (λ off. iproduct-HasUsable a i fits)
      (λ on.
        if-cases HasUsable
          (not (bulk_result a.send 20 == 0) || not (bulk_result a.receive 100 == 0))
          (λ silent. iproduct-HasUsable a (record i { has_statuslink = false }) fits)
          (λ answered. (_, refl, lookup_model-HasSides _)))
