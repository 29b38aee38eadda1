-- ===== src/Mpro/Tests/Data.antt =====
-- The devices, frames and children that the examples run on.
use packages.Base.{ℕ, suc, true, false, none, some, [], ◌∷◌}
use packages.Base.Int.{pos}
use packages.Mpro.Model.{ModelInfo}
use packages.Mpro.Screen.Listeners.{Listener}
use packages.Mpro.Pipeline.Xfer.{Xfer, Pipe, kmalloc}
use packages.Mpro.Pipeline.Alloc.{Memory, Area, Compressor}
use packages.Mpro.Pm.Device.{Device}
use packages.Mpro.Pm.Work.{Answers}

-- The 5-inch panel.
abbrev pub panel : ModelInfo
panel = record {
  screen_id = 5;
  width = 480;
  height = 854;
  width_mm = 62;
  height_mm = 110;
  margin = 0;
  native_rotation = 20;
  touch_invert_x = true;
  touch_invert_y = false;
  touch_swap_xy = false;
}

abbrev pub area : Area
area = record { x = 0; y = 1; w = 2; h = 1 }

-- All allocations succeed.
abbrev pub plenty : Memory
plenty = record {
  xfer_ok = true;
  coherent_ok = true;
  kmalloc_ok = true;
  kvmalloc_ok = true;
  ctrl_ok = true;
  bulk_ok = true;
  stale = [];
}

-- A compressor that keeps the first two bytes.
abbrev pub two_bytes : Compressor
two_bytes level src = (pos 2, 7 ∷ 9 ∷ [])

-- Transfer `id`, a raw frame of four bytes.
abbrev pub frame : ℕ → Xfer
frame id = record {
  id = id;
  partial = false;
  buffer = some (1 ∷ 2 ∷ 3 ∷ 4 ∷ []);
  origin = kmalloc;
  len = 4;
  dma_coherent = false;
  x = 0;
  y = 1;
  w = 2;
  h = 1;
  ctrl_urb = true;
  bulk_urb = true;
  compressed = false;
  orig_len = 0;
}

-- A device after the probe, that takes frames.
abbrev pub fresh_pipe : Pipe
fresh_pipe = record {
  running = true;
  in_flight = false;
  current_xfer = none;
  pending_xfer = none;
  is_idle = false;
  dma_dev = false;
  model = some panel;
  fw_major = pos 0;
  fw_minor = pos 25;
  lz4_level = pos 1;
  lz4_threshold = 2;
  lz4_workmem = true;
  stats_submitted = 0;
  stats_displayed = 0;
  stats_dropped = 0;
  last_frame_ns = 0;
  ewma_period_ns = 0;
  allocated = 0;
  freed = [];
}

-- Frame 0 is on the wire and frame 1 waits.
abbrev pub busy_pipe : Pipe
busy_pipe = record fresh_pipe {
  in_flight = true;
  current_xfer = some (frame 0);
  pending_xfer = some (frame 1);
  allocated = 2;
}

-- The children's state is a number, which a listener adds 1 to when the screen goes off.
abbrev pub counter : ℕ → Listener ℕ
counter n = record {
  node = n;
  screen_off = some (λ s. suc s);
  screen_on = none;
  screen_wake = none;
}

abbrev pub device : Device ℕ
device = record {
  pipe = fresh_pipe;
  listeners = counter 1 ∷ [];
  children = 0;
  idle_armed = false;
  wake_queued = false;
  active_refs = 0;
  fbdev_enabled = false;
  idle_delay_ms = 5000;
  pm_active_total_ns = 0;
  pm_idle_total_ns = 0;
  pm_state_changed_ns = 100;
  pm_idle_count = 0;
  pm_wake_count = 0;
  pm_touch_wake_count = 0;
}

abbrev pub answers : Answers
answers = record { black_ok = true; memory = plenty; lz4 = two_bytes; submit_ret = 0 }
