-- ===== src/Pages/Devices.antt =====
-- frontend/dashboard/src/pages/EdgeDevicesPage.tsx. The numbers at the top are texts of the markup. The
-- buttons have no handler.
use surakshanet.Base.{ℕ, min, String, ◌<>◌, false, List, [], ◌∷◌, ◌++◌, ltb, if◌then◌else◌}
use surakshanet.Markup.{Mark, text, icon, tone, bar, Item, button, marks, each}

pub data DeviceStatus : Type 0 where
  online warning offline : DeviceStatus

pub record EdgeDevice : Type 0 where
  pub id : String
  pub location : String
  pub status : DeviceStatus
  pub gpu_temp : ℕ
  pub fps : ℕ
  pub memory_usage : ℕ
  pub uplink_speed : ℕ

abbrev pub device : String → String → DeviceStatus → ℕ → ℕ → ℕ → ℕ → EdgeDevice
device id location status gpu_temp fps memory_usage uplink_speed = record {
  id = id;
  location = location;
  status = status;
  gpu_temp = gpu_temp;
  fps = fps;
  memory_usage = memory_usage;
  uplink_speed = uplink_speed;
}

abbrev pub mock_devices : List EdgeDevice
mock_devices =
    device "BLR-NODE-8821" "MG Road Junction" online 65 28 64 45
    ∷ device "BLR-NODE-8822" "Brigade Road" warning 82 15 88 12
    ∷ device "BLR-NODE-8823" "Indiranagar 100ft" online 58 30 45 55
    ∷ device "BLR-NODE-8824" "Koramangala 80ft" offline 0 0 0 0
    ∷ device "BLR-NODE-8825" "HSR Layout" online 70 29 72 38
    ∷ device "BLR-NODE-8826" "Silk Board" warning 85 12 92 8
    ∷ []

abbrev pub status_tone : DeviceStatus → String
status_tone online = "bg-emerald-100 text-emerald-700"
status_tone warning = "bg-yellow-100 text-yellow-700"
status_tone offline = "bg-red-100 text-red-700"

abbrev pub status_text : DeviceStatus → String
status_text online = "Online"
status_text warning = "Warning"
status_text offline = "Offline"

-- A measurement, which a device that is offline has not.
abbrev pub measured : DeviceStatus → String → String
measured online s = s
measured warning s = s
measured offline s = "--"

unfoldable pub temp_tone : ℕ → String
temp_tone gpu_temp =
    if ltb gpu_temp 75
    then "bg-emerald-500"
    else if ltb gpu_temp 85
    then "bg-yellow-500"
    else "bg-red-500"

pub data Click : Type 0 where
  restarts views_logs : String → Click

unfoldable pub fleet : List Mark
fleet =
    text "Edge Devices"
    ∷ text "Jetson Fleet Management"
    ∷ icon "Server"
    ∷ text "150 Total"
    ∷ tone "bg-emerald-500"
    ∷ text "142 Online"
    ∷ tone "bg-yellow-500"
    ∷ text "5 Warning"
    ∷ tone "bg-red-500"
    ∷ text "3 Offline"
    ∷ []

unfoldable pub card : (ℕ → String) → EdgeDevice → List (Item Click)
card to_text d =
    marks (
      text d.id
      ∷ text d.location
      ∷ tone (status_tone d.status)
      ∷ text (status_text d.status)
      ∷ text "GPU Temp"
      ∷ text (measured d.status (to_text d.gpu_temp <> "°C"))
      ∷ tone (temp_tone d.gpu_temp)
      ∷ bar (min d.gpu_temp 100)
      ∷ text "FPS"
      ∷ text (measured d.status (to_text d.fps))
      ∷ text "Memory"
      ∷ text (measured d.status (to_text d.memory_usage <> "%"))
      ∷ text "Uplink"
      ∷ text (measured d.status (to_text d.uplink_speed <> "M"))
      ∷ [])
    ++ (button false (restarts d.id) (icon "RotateCw" ∷ text "Restart" ∷ [])
        ∷ button false (views_logs d.id) (icon "FileText" ∷ text "View Logs" ∷ [])
        ∷ [])

unfoldable pub view : (ℕ → String) → List (Item Click)
view to_text = marks fleet ++ each (card to_text) mock_devices
