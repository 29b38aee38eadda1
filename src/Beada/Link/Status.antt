-- ===== src/Beada/Link/Status.antt =====
-- beada-pipeline.c: Status-Link commands.
use packages.Base.{ℕ, ◌+◌, ◌-◌, ◌/◌, ◌%◌, List, [], ◌∷◌, ◌++◌, not, ◌==◌, if◌then◌else◌}
use packages.Base.Errno.{Ret, eopnotsupp, ehostdown}
use packages.Mpro.Pipeline.Submit.{le16}
use packages.Beada.Checksum.{sl_fill_tag}
use packages.Beada.Link.Device.{Packet, to_status, Link, Host, Bulk, bulk_out, check_alive}

-- SL_TYPE_PL_RESET is 2; the packet is the header of 20 bytes.
unfoldable pub reset_packet : Host → Packet
reset_packet host = to_status (sl_fill_tag host.big_endian 2 20)

-- `sl_transact` without a reply, when the device is alive; the section under the lock.
unfoldable pub locked_transact : Bulk → Packet → ℕ → Link → Ret × Link
locked_transact out packet len l =
    let alive = check_alive l in if not (alive == 0) then (alive, l) else bulk_out out packet len l

-- `beada_panellink_reset`.
unfoldable pub panellink_reset : Host → Bulk → Link → Ret × Link
panellink_reset host out l =
    if not l.has_statuslink then (eopnotsupp, l) else locked_transact out (reset_packet host) 20 l

-- `usb_autopm_put_interface` after a command, where it is needed.
unfoldable pub put_autopm : Ret × Link → Ret × Link
put_autopm (ret, l) = (ret, record l { autopm = l.autopm - 1 })

-- A command with a reference on the interface around it, except during a resume; `pm` is what
-- `usb_autopm_get_interface` returns.
unfoldable pub with_autopm : Ret → Bulk → Packet → ℕ → Link → Ret × Link
with_autopm pm out packet len l =
    if l.in_resume
    then locked_transact out packet len l
    else if not (pm == 0)
    then (pm, l)
    else put_autopm (locked_transact out packet len (record l { autopm = l.autopm + 1 }))

-- SL_TYPE_SET_BL is 3; the header and the level.
unfoldable pub brightness_packet : Host → ℕ → Packet
brightness_packet host level = to_status (sl_fill_tag host.big_endian 3 21 ++ level % 256 ∷ [])

-- `beada_set_brightness`.
unfoldable pub set_brightness : Host → Ret → Bulk → ℕ → Link → Ret × Link
set_brightness host pm out level l =
    if not l.has_statuslink
    then (eopnotsupp, l)
    else if l.suspended
    then (0, l)
    else with_autopm pm out (brightness_packet host level) 21 l

-- `struct tm`, as `time64_to_tm` fills it for an offset from UTC in seconds, and the nanoseconds of
-- the clock.
pub record Time : Type 0 where
  pub year_1900 : ℕ
  pub month : ℕ
  pub weekday : ℕ
  pub day : ℕ
  pub hour : ℕ
  pub minute : ℕ
  pub second : ℕ
  pub nanoseconds : ℕ

-- SL_TYPE_SET_TIME is 6; the header and `struct statuslink_systemtime`: `sl_send_time`.
unfoldable pub time_bytes : Host → Time → List ℕ
time_bytes host t =
    sl_fill_tag host.big_endian 6 36
    ++ (le16 (t.year_1900 + 1900)
        ++ (le16 (t.month + 1)
            ++ (le16 t.weekday
                ++ (le16 t.day
                    ++ (le16 t.hour
                        ++ (le16 t.minute ++ (le16 t.second ++ le16 (t.nanoseconds / 1000000))))))))

-- `beada_sync_time`; `now` is the time that the clock has with the configured offset.
unfoldable pub sync_time : Host → Time → Ret → Bulk → Link → Ret × Link
sync_time host now pm out l =
    if not l.has_statuslink
    then (eopnotsupp, l)
    else if l.suspended
    then (ehostdown, l)
    else with_autopm pm out (to_status (time_bytes host now)) 36 l
