-- ===== src/Beada/Tests/Info.antt =====
-- Examples of the probe's queries: each theorem with hypotheses, applied where they hold.
use packages.Base.{true, [], ◌∷◌, replicate, arith}
use packages.Base.Int.{negsuc}
use packages.Beada.Info.Query.{Info, Answers, query_device_info}
use packages.Beada.Info.Usable.{HasUsable, query_device_info-IsUsable}
use packages.Beada.Tests.Link.{done}

abbrev nothing_known : Info
nothing_known = record {
  has_statuslink = true;
  panel = record {
    width = 0;
    height = 0;
    width_mm = 0;
    height_mm = 0;
    max_brightness = 0;
    current_brightness = 0;
    model = [];
  };
  firmware_version = 0;
  panellink_version = 0;
  statuslink_version = 0;
  platform = 0;
  sn = [];
  storage_size_kb = 0;
  initial_brightness = negsuc 0;
}

-- A device that names the model "5", 800 by 480, and whose reply is all zeros.
abbrev named : Answers
named = record {
  string_ret = 0;
  string = 53 ∷ [];
  scan = λ s. record { conversions = 2; id = s; w = 800; h = 0 };
  stack = record { conversions = 0; id = []; w = 0; h = 480 };
  send = done 20;
  receive = done 100;
  reply = replicate 100 0;
}

query_device_info-IsUsable_example : HasUsable (query_device_info named nothing_known)
query_device_info-IsUsable_example = query_device_info-IsUsable named nothing_known (omega arith)
