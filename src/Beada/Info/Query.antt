-- ===== src/Beada/Info/Query.antt =====
-- beada-pipeline.c: beada_query_device_info and beada_try_iproduct.
use packages.Base.{
  ℕ, ◌+◌, ◌*◌, ◌%◌, ◌^◌, Bool, false, Option, none, some, List, [], ◌∷◌, not, ◌||◌, ◌==◌, ltb, leb,
  take, drop, length, get_or, if◌then◌else◌,
}
use packages.Base.Int.{ℤ, pos, negsuc, ltb_ℤ}
use packages.Base.Errno.{Ret, enodata, erange}
use packages.Beada.Model.{ModelEntry, lookup_model, lookup_model_by_modelid, lookup_model_by_res}
use packages.Beada.Link.Device.{Bulk, bulk_result}

-- `struct beada_panel_info`; the model's name is its bytes.
pub record PanelInfo : Type 0 where
  pub width : ℕ
  pub height : ℕ
  pub width_mm : ℕ
  pub height_mm : ℕ
  pub max_brightness : ℕ
  pub current_brightness : ℕ
  pub model : List ℕ

-- The fields of `struct beada_mfd_dev` that the probe fills in, and the module parameter
-- `initial_brightness`, which it may change.
pub record Info : Type 0 where
  pub has_statuslink : Bool
  pub panel : PanelInfo
  pub firmware_version : ℕ
  pub panellink_version : ℕ
  pub statuslink_version : ℕ
  pub platform : ℕ
  pub sn : List ℕ
  pub storage_size_kb : ℕ
  pub initial_brightness : ℤ

-- What `sscanf` makes of a string with the format "BeadaPanel %s, %ux%u": how many conversions it
-- stored, and their values.
pub record Scan : Type 0 where
  pub conversions : ℕ
  pub id : List ℕ
  pub w : ℕ
  pub h : ℕ

-- What the device and the library answer: the string descriptor or an error, the scanner, and what
-- the variables hold that the scanner does not store; then the two transfers and the bytes received.
pub record Answers : Type 0 where
  pub string_ret : Ret
  pub string : List ℕ
  pub scan : List ℕ → Scan
  pub stack : Scan
  pub send : Bulk
  pub receive : Bulk
  pub reply : List ℕ

-- The variables after the scan; only what was converted is stored.
unfoldable pub scanned : Scan → Scan → Scan
scanned s stack = record {
  conversions = s.conversions;
  id = if leb 1 s.conversions then s.id else stack.id;
  w = if leb 2 s.conversions then s.w else stack.w;
  h = if leb 3 s.conversions then s.h else stack.h;
}

-- The panel takes the dimensions and the name of an entry.
unfoldable pub apply_model : ModelEntry → PanelInfo → PanelInfo
apply_model e p = record p {
  width = e.width;
  height = e.height;
  width_mm = e.width_mm;
  height_mm = e.height_mm;
  model = e.name;
}

-- The two lookups of `beada_try_iproduct`.
unfoldable pub or_by_res : Option ModelEntry → ℕ → ℕ → Option ModelEntry
or_by_res (some e) w h = some e
or_by_res none w h = lookup_model_by_res (w % 2 ^ 16) (h % 2 ^ 16)

unfoldable pub find_panel : List ℕ → ℕ → ℕ → Option ModelEntry
find_panel id w h = or_by_res (lookup_model_by_modelid id) w h

-- The panel of an entry, or one without a model.
unfoldable pub panel_of : Option ModelEntry → ℕ → ℕ → PanelInfo → PanelInfo
panel_of (some e) w h p = apply_model e p
panel_of none w h p = record p {
  width = w % 2 ^ 16;
  height = h % 2 ^ 16;
  width_mm = 0;
  height_mm = 0;
  model = 63 ∷ [];
}

-- `beada_try_iproduct`, from the variables on.
unfoldable pub use_iproduct : Scan → Info → Ret × Info
use_iproduct s i =
    if not (s.conversions == 2)
    then (enodata, i)
    else if s.w == 0 || (s.h == 0 || (ltb 4096 s.w || ltb 4096 s.h))
    then (erange, i)
    else (0, record i { panel = panel_of (find_panel s.id s.w s.h) s.w s.h i.panel })

-- Does the word that the scanner stores fit `model_id`, 8 bytes with its 0?
unfoldable pub fits_model_id : Scan → Bool
fits_model_id s = not (leb 1 s.conversions) || ltb (length s.id) 8

-- `beada_try_iproduct`, or `none` where the scanner writes past the end of `model_id`: the conversion
-- of the word has no width.
unfoldable pub try_iproduct : Answers → Info → Option (Ret × Info)
try_iproduct a i =
    if not (a.string_ret == 0)
    then some (a.string_ret, i)
    else if not (fits_model_id (a.scan a.string))
    then none
    else some (use_iproduct (scanned (a.scan a.string) a.stack) i)

abbrev byte : List ℕ → ℕ → ℕ
byte reply at = get_or reply at 0

-- The override of the brightness that the device reports: the parameter, then the panel's value.
unfoldable pub clamp_initial : ℤ → ℕ → ℤ
clamp_initial initial max_level = if ltb_ℤ (pos max_level) initial then pos max_level else initial

unfoldable pub initial_level : ℤ → ℕ → ℕ
initial_level (pos n) reported = n % 256
initial_level (negsuc n) reported = reported

-- The fields of the reply: `struct statuslink_info` follows the header of 20 bytes.
unfoldable pub read_info : List ℕ → Info → Info
read_info reply i =
    let top = byte reply 98 in
    let initial = clamp_initial i.initial_brightness top in
    record i {
      firmware_version = byte reply 20 + 256 * byte reply 21;
      panellink_version = byte reply 22;
      statuslink_version = byte reply 23;
      platform = byte reply 24;
      sn = take 64 (drop 26 reply);
      storage_size_kb =
          byte reply 94 + 2 ^ 8 * byte reply 95 + 2 ^ 16 * byte reply 96 + 2 ^ 24 * byte reply 97;
      initial_brightness = initial;
      panel = record i.panel {
        max_brightness = top;
        current_brightness = initial_level initial (byte reply 99);
      };
    }

unfoldable pub set_panel : ModelEntry → Info → Info
set_panel e i = record i { panel = apply_model e i.panel }

-- `beada_query_device_info` without an answer over Status-Link.
unfoldable pub detect_by_name : Option (Ret × Info) → Option Info
detect_by_name none = none
detect_by_name (some (ret, i)) = some (if ret == 0 then i else set_panel (lookup_model 255) i)

-- `beada_query_device_info`; it always returns 0, or, with `none`, has written past a buffer. The
-- command has 20 bytes, the reply 100.
unfoldable pub query_device_info : Answers → Info → Option Info
query_device_info a i =
    if not i.has_statuslink
    then detect_by_name (try_iproduct a i)
    else if not (bulk_result a.send 20 == 0) || not (bulk_result a.receive 100 == 0)
    then detect_by_name (try_iproduct a (record i { has_statuslink = false }))
    else some (set_panel (lookup_model (byte a.reply 25)) (read_info a.reply i))
