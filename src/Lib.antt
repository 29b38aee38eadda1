-- ===== src/Lib.antt =====
-- A verification library for the kernel drivers of this repository. It covers the MPro driver
-- (kernel/mpro/src), a driver for USB panels: a parent that owns the USB device, and children for
-- graphics, touch and backlight that call the parent. Of the BeadaPanel driver
-- (kernel/beadapanel/src), built the same way, it covers the parent and both children, and it
-- covers the framebuffer driver of kernel/usbfb/src and the screen updates of kernel/ax206/src.
--
-- The parts, and how they interact. The files named are in kernel/mpro/src, for Beada in
-- kernel/beadapanel/src, for Ax206 in kernel/ax206/src.
--   * Mpro/Model is mpro_model.c: the table of panels. The other parts read its `ModelInfo`.
--   * Mpro/Protocol is mpro_protocol.c: the queries and commands of the probe, and the firmware
--     version, by which the pipeline decides whether to compress.
--   * Mpro/Pipeline is mpro_pipeline.c. A frame becomes a transfer (Xfer, Alloc), `send_xfer` puts
--     it on the wire or lets it wait (Send, Submit), the completions and the workqueue take it off
--     again (Complete), and `send_full_frame` and `send_partial_frame` are what the children call
--     (Frame). System puts the locked sections together as a step relation: any number of threads,
--     the USB host, the workqueue and the three calls of the shutdown interleave. Token, Sections,
--     Stopped, SingleFlight, Ownership and Leaks are about that relation, Latest about coalescing,
--     Wire about the bytes of the control message, Ready about the allocators and FramePeriod about
--     the average of the frame period.
--   * Mpro/Screen is mpro_screen.c: the listeners that are told when the screen goes off and on.
--   * Mpro/Pm is mpro_pm.c: the virtual idle state, which uses the listeners and sends a frame
--     through the pipeline. Trace is about any sequence of its operations.
--   * Mpro/Rotation is the rotation of pictures (drm/mpro_drm_color.c) and the composition of
--     rotations (drm/mpro_drm.h).
--   * Mpro/Touch is the touch URB and its listeners (mpro_touch.c) and the touchscreen child
--     (touchscreen/mpro_touchscreen.c), which turns points by the composed rotation and wakes the
--     device through Mpro/Pm.
--   * Mpro/Backlight is the backlight child (backlight/mpro_backlight.c) and the parser of gamma
--     values in mpro.h.
--   * Mpro/Drm is the DRM child: the update of a damaged rectangle (Update, Damage,
--     drm/mpro_drm_pipe.c), colours (Gamma, Pixel, Curve, Shade, mpro_color.c and
--     drm/mpro_drm_color.c) and the EDID block (Edid, Identity, drm/mpro_drm_edid.c). Copy is
--     copy_frame of drm/mpro_drm_color.c, from a framebuffer to the shadow buffer, and Safe is
--     about its bounds. Child has the state of the child and fb_mark_dirty, Kms the callbacks of
--     the pipe with the vblank timer and the page-flip events (drm/mpro_drm_pipe.c), Power the
--     start, suspend, resume and the stores (drm/mpro_drm_main.c, drm/mpro_drm_sysfs.c); they call
--     Mpro/Pipeline, Mpro/Pm and Mpro/Screen. Held, Callbacks and Calls are about any sequence of
--     calls of child and idle management, Keeps about what an update leaves alone, Stale about a
--     forced wake.
--   * Mpro/Sysfs is mpro_sysfs.c: Stores (with the work memory of the compressor, mpro_main.c) and
--     Shows. Ready is about when a frame is compressed, Stats about statistics that are reset.
--   * Mpro/Probe is the probe and the disconnect of mpro_main.c as a sequence of acquisitions
--     (Devres); Released is about what they leave.
--   * Beada/Checksum and Verify are beada-protocol.c, Beada/Model and Lookup are beada-model.c.
--   * Beada/Link is the parent of the BeadaPanel driver (beada-pipeline.c, beada-usb.c,
--     beada-pm.c): its state and one bulk transfer (Device), frames and their worker (Frames),
--     Status-Link commands (Status), suspend and resume (Power). Conversation says what the device
--     expects on the wire, Steps is the relation of all calls, Oversize is about the frame limit.
--   * Beada/Info is the probe's queries of beada-pipeline.c.
--   * Beada/Drm is the DRM child (drm/beada-drm-plane.c and the files beside it): Blit turns a
--     framebuffer into the panel's buffer, Pipe has the callbacks, which call Beada/Link. Coord,
--     Picture and Colour are about the blit, with places and colours in words of the panel in
--     Colour; Shown is about any sequence of calls of child and parent, Delivered about one commit
--     on its way to the device; Edid and Identity are drm/beada-drm-edid.c, Vblank is
--     drm/beada-drm-vblank.c with the page-flip event in the callbacks.
--   * Beada/Backlight is the backlight child (bl): Child has the curve, the stores and the resume
--     handler, which call Beada/Link. Curve is about the level that is sent, Resumed about a
--     brightness that is set while the device is suspended.
--   * Usbfb is kernel/usbfb/src/usbfb.c: the queries and the geometry of the probe (Query,
--     Geometry), the refresh thread and the stores (Screen, Order), the backlight (Backlight,
--     Repeat), and what the probe acquires and the disconnect gives back (Setup).
--   * Ax206 is the driver of the AX206 picture frames: its state and rotation (Screen,
--     drm/ax206-drm-rotation.c), the flush of a framebuffer, the blank screen and the blit worker
--     (Flush, drm/ax206-drm-plane.c), and the commands (Screen, Usb, ax206-usb.c). Idle has the
--     pipe callbacks, the virtual idle state (drm/ax206-drm-pm.c) and the work of the backlight
--     child (bl/ax206-bl-drv.c). Coherent and Worker compare the panel with the shadow buffer,
--     Turned is about the rotation by 90 degrees, Dark about a pipe that is closed while the panel
--     is idle. Loop is the whole loop of the worker with the damage that arrives during its
--     transfers, Drained what the panel shows at its end, Stats the statistics
--     (drm/ax206-drm-stats.c). A flush and a turn of the worker are one step each, though the code
--     copies pixels outside its lock.
--   * Base holds the shared tests, lists, integers and errno values; Mpro/Tests, Beada/Tests,
--     Usbfb/Tests and Ax206/Tests the examples.
--
-- How the code is modelled. A function has the name of its C function without the prefix. It takes
-- the state and returns the new one; a return value of 0 or -errno is the errno as a number, 0 on
-- success. What a function asks of the kernel in one call is an argument: which allocations succeed
-- (`Memory`), what a submission or a control transfer returns, the clock (`now`), the result of the
-- LZ4 library (`Compressor`), of sscanf (`Scanner`, `Scan`), of a bulk transfer (`Bulk`), of the
-- parsers of numbers (an Option), of a callback's calls of the DRM library (`Kernel`). No law of
-- them is assumed but one: a START tag of Beada/Link whose transfer is reported as failed has not
-- arrived in full (`IsPartial`). In the copies of Mpro/Drm and in the scan of Beada/Info the result
-- has a case for an access outside a buffer. A read past the end of the framebuffer gives 0 in
-- Beada/Drm; in Ax206 the framebuffer is a picture without an end, which past the real one stands
-- for whatever the code reads there. Reads that trap are not modelled in these two. A bulk transfer
-- of Beada/Link that fails leaves the first bytes of its packet on the wire, as many as its answer
-- says. A section under a spinlock is one function; code outside the lock is another step. A
-- transfer carries a number for its address and the allocator that its buffer came from, and the
-- device a log of the transfers freed, so that ownership can be stated; the code reads none of
-- them.
--
-- Integers. Numbers are natural numbers. Where the code cuts to a width, the definition writes the
-- modulus: 2^32 for the statistics and the references, 2^64 for times, 65536 for coordinates, 256
-- for bytes. Subtraction stops at 0; where the code can go below, the definition adds the modulus
-- first. Signed fields use the integers of Base/Int.
--
-- Termination. The loops are structural recursion, over a list of listeners or over the number of
-- lines or columns that are left. The loop of the AX206 worker has no bound of its own: it runs
-- over a list of rounds, one for each turn, and two rounds without damage are enough for it to end.
--
-- Not modelled: the registration with the kernel's USB, MFD, DRM, input and sysfs cores, log
-- messages, the shows that only print one field, the attributes of the BeadaPanel driver, and of
-- the AX206 driver the endpoints, the conversion of a pixel and the stores. The memory model is
-- that of the locks: a locked section is atomic; where usbfb takes no lock, a turn of its thread is
-- one step and a store another, so that a store inside a turn is left out.
pub mod Base
pub mod Mpro
pub mod Beada
pub mod Usbfb
pub mod Ax206
