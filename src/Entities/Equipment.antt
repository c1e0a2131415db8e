-- ===== src/Entities/Equipment.antt =====
-- Equipment and the groups of weapons (apps/tracker/entities.py).
use swat4stats.Base.{List, [], ◌∷◌}
use swat4stats.Base.Text.{Text, codes}

-- `class Equipment`
pub data Equipment : Type 0 where
  none : Equipment
  m4_super90 : Equipment
  nova_pump : Equipment
  shotgun : Equipment
  less_lethal_shotgun : Equipment
  pepper_ball : Equipment
  colt_m4a1_carbine : Equipment
  ak_47_machinegun : Equipment
  gb36s_assault_rifle : Equipment
  gal_sub_machinegun : Equipment
  _9mm_smg : Equipment
  suppressed_9mm_smg : Equipment
  _45_smg : Equipment
  m1911_handgun : Equipment
  _9mm_handgun : Equipment
  colt_python : Equipment
  taser_stun_gun : Equipment
  vip_colt_m1911_handgun : Equipment
  cs_gas_vip : Equipment
  light_armor : Equipment
  heavy_armor : Equipment
  gas_mask : Equipment
  helmet : Equipment
  flashbang : Equipment
  cs_gas : Equipment
  stinger : Equipment
  pepper_spray : Equipment
  optiwand : Equipment
  toolkit : Equipment
  door_wedge : Equipment
  c2_x3 : Equipment
  the_detonator : Equipment
  zip_cuffs : Equipment
  iamcuffed : Equipment
  colt_accurized_rifle : Equipment
  _40mm_grenade_launcher : Equipment
  _5_56mm_light_machine_gun : Equipment
  _5_7x28mm_submachine_gun : Equipment
  mark_19_semi_automatic_pistol : Equipment
  _9mm_machine_pistol : Equipment
  cobra_stun_gun : Equipment
  ammo_pouch : Equipment
  no_armor : Equipment
  night_vision_goggles : Equipment
  stinger_grenade : Equipment
  cs_gas_grenade : Equipment
  flashbang_grenade : Equipment
  baton_grenade : Equipment

-- `.value`
unfoldable pub equipment_value : Equipment → Text
equipment_value Equipment.none = codes "None"
equipment_value Equipment.m4_super90 = codes "M4 Super90"
equipment_value Equipment.nova_pump = codes "Nova Pump"
equipment_value Equipment.shotgun = codes "Shotgun"
equipment_value Equipment.less_lethal_shotgun = codes "Less Lethal Shotgun"
equipment_value Equipment.pepper_ball = codes "Pepper-ball"
equipment_value Equipment.colt_m4a1_carbine = codes "Colt M4A1 Carbine"
equipment_value Equipment.ak_47_machinegun = codes "AK-47 Machinegun"
equipment_value Equipment.gb36s_assault_rifle = codes "GB36s Assault Rifle"
equipment_value Equipment.gal_sub_machinegun = codes "Gal Sub-machinegun"
equipment_value Equipment._9mm_smg = codes "9mm SMG"
equipment_value Equipment.suppressed_9mm_smg = codes "Suppressed 9mm SMG"
equipment_value Equipment._45_smg = codes ".45 SMG"
equipment_value Equipment.m1911_handgun = codes "M1911 Handgun"
equipment_value Equipment._9mm_handgun = codes "9mm Handgun"
equipment_value Equipment.colt_python = codes "Colt Python"
equipment_value Equipment.taser_stun_gun = codes "Taser Stun Gun"
equipment_value Equipment.vip_colt_m1911_handgun = codes "VIP Colt M1911 Handgun"
equipment_value Equipment.cs_gas_vip = codes "CS Gas VIP"
equipment_value Equipment.light_armor = codes "Light Armor"
equipment_value Equipment.heavy_armor = codes "Heavy Armor"
equipment_value Equipment.gas_mask = codes "Gas Mask"
equipment_value Equipment.helmet = codes "Helmet"
equipment_value Equipment.flashbang = codes "Flashbang"
equipment_value Equipment.cs_gas = codes "CS Gas"
equipment_value Equipment.stinger = codes "Stinger"
equipment_value Equipment.pepper_spray = codes "Pepper Spray"
equipment_value Equipment.optiwand = codes "Optiwand"
equipment_value Equipment.toolkit = codes "Toolkit"
equipment_value Equipment.door_wedge = codes "Door Wedge"
equipment_value Equipment.c2_x3 = codes "C2 (x3)"
equipment_value Equipment.the_detonator = codes "The Detonator"
equipment_value Equipment.zip_cuffs = codes "Zip-cuffs"
equipment_value Equipment.iamcuffed = codes "IAmCuffed"
equipment_value Equipment.colt_accurized_rifle = codes "Colt Accurized Rifle"
equipment_value Equipment._40mm_grenade_launcher = codes "40mm Grenade Launcher"
equipment_value Equipment._5_56mm_light_machine_gun = codes "5.56mm Light Machine Gun"
equipment_value Equipment._5_7x28mm_submachine_gun = codes "5.7x28mm Submachine Gun"
equipment_value Equipment.mark_19_semi_automatic_pistol = codes "Mark 19 Semi-Automatic Pistol"
equipment_value Equipment._9mm_machine_pistol = codes "9mm Machine Pistol"
equipment_value Equipment.cobra_stun_gun = codes "Cobra Stun Gun"
equipment_value Equipment.ammo_pouch = codes "Ammo Pouch"
equipment_value Equipment.no_armor = codes "No Armor"
equipment_value Equipment.night_vision_goggles = codes "Night Vision Goggles"
equipment_value Equipment.stinger_grenade = codes "Stinger Grenade"
equipment_value Equipment.cs_gas_grenade = codes "CS Gas Grenade"
equipment_value Equipment.flashbang_grenade = codes "Flashbang Grenade"
equipment_value Equipment.baton_grenade = codes "Baton Grenade"

-- `Equipment.primary_weapons`
unfoldable pub primary_weapons : List Equipment
primary_weapons =
    Equipment.m4_super90 ∷ Equipment.nova_pump ∷ Equipment.pepper_ball
    ∷ Equipment.less_lethal_shotgun ∷ Equipment.colt_m4a1_carbine ∷ Equipment.ak_47_machinegun
    ∷ Equipment.gb36s_assault_rifle ∷ Equipment.gal_sub_machinegun ∷ Equipment._9mm_smg
    ∷ Equipment.suppressed_9mm_smg ∷ Equipment._45_smg ∷ Equipment.colt_accurized_rifle
    ∷ Equipment._40mm_grenade_launcher ∷ Equipment._5_56mm_light_machine_gun
    ∷ Equipment._5_7x28mm_submachine_gun ∷ Equipment._9mm_machine_pistol ∷ []

-- `Equipment.secondary_weapons`
unfoldable pub secondary_weapons : List Equipment
secondary_weapons =
    Equipment.taser_stun_gun ∷ Equipment.cobra_stun_gun ∷ Equipment.m1911_handgun
    ∷ Equipment._9mm_handgun ∷ Equipment.colt_python ∷ Equipment.vip_colt_m1911_handgun
    ∷ Equipment.mark_19_semi_automatic_pistol ∷ []

-- `Equipment.grenades`
unfoldable pub grenades : List Equipment
grenades = Equipment.stinger ∷ Equipment.cs_gas ∷ Equipment.flashbang ∷ []
