-- ===== src/Schema/Items.antt =====
-- The codes of equipment, weapons and ammunition (apps/tracker/schema.py).
use swat4stats.Base.{ℕ, [], ◌∷◌, ltb}
use swat4stats.Base.Table.{select}
use swat4stats.Base.Text.{Text}
use swat4stats.Entities.Equipment.{Equipment, equipment_value}
use swat4stats.Entities.Ammo.{Ammo, ammo_value}
use swat4stats.Base.Eq.{codes_eq}
use swat4stats.Schema.Dict.{Dict, reversed}

-- `equipment_encoded`
unfoldable pub equipment_encoded : Dict ℕ Text
unfolding equipment_value
equipment_encoded =
    (0, equipment_value Equipment.none)
    ∷ (1, equipment_value Equipment.m4_super90)
    ∷ (2, equipment_value Equipment.nova_pump)
    ∷ (3, equipment_value Equipment.shotgun)
    ∷ (4, equipment_value Equipment.less_lethal_shotgun)
    ∷ (5, equipment_value Equipment.pepper_ball)
    ∷ (6, equipment_value Equipment.colt_m4a1_carbine)
    ∷ (7, equipment_value Equipment.ak_47_machinegun)
    ∷ (8, equipment_value Equipment.gb36s_assault_rifle)
    ∷ (9, equipment_value Equipment.gal_sub_machinegun)
    ∷ (10, equipment_value Equipment._9mm_smg)
    ∷ (11, equipment_value Equipment.suppressed_9mm_smg)
    ∷ (12, equipment_value Equipment._45_smg)
    ∷ (13, equipment_value Equipment.m1911_handgun)
    ∷ (14, equipment_value Equipment._9mm_handgun)
    ∷ (15, equipment_value Equipment.colt_python)
    ∷ (16, equipment_value Equipment.taser_stun_gun)
    ∷ (17, equipment_value Equipment.vip_colt_m1911_handgun)
    ∷ (18, equipment_value Equipment.cs_gas_vip)
    ∷ (19, equipment_value Equipment.light_armor)
    ∷ (20, equipment_value Equipment.heavy_armor)
    ∷ (21, equipment_value Equipment.gas_mask)
    ∷ (22, equipment_value Equipment.helmet)
    ∷ (23, equipment_value Equipment.flashbang)
    ∷ (24, equipment_value Equipment.cs_gas)
    ∷ (25, equipment_value Equipment.stinger)
    ∷ (26, equipment_value Equipment.pepper_spray)
    ∷ (27, equipment_value Equipment.optiwand)
    ∷ (28, equipment_value Equipment.toolkit)
    ∷ (29, equipment_value Equipment.door_wedge)
    ∷ (30, equipment_value Equipment.c2_x3)
    ∷ (31, equipment_value Equipment.the_detonator)
    ∷ (32, equipment_value Equipment.zip_cuffs)
    ∷ (33, equipment_value Equipment.iamcuffed)
    ∷ (34, equipment_value Equipment.colt_accurized_rifle)
    ∷ (35, equipment_value Equipment._40mm_grenade_launcher)
    ∷ (36, equipment_value Equipment._5_56mm_light_machine_gun)
    ∷ (37, equipment_value Equipment._5_7x28mm_submachine_gun)
    ∷ (38, equipment_value Equipment.mark_19_semi_automatic_pistol)
    ∷ (39, equipment_value Equipment._9mm_machine_pistol)
    ∷ (40, equipment_value Equipment.cobra_stun_gun)
    ∷ (41, equipment_value Equipment.ammo_pouch)
    ∷ (42, equipment_value Equipment.no_armor)
    ∷ (43, equipment_value Equipment.night_vision_goggles)
    ∷ (44, equipment_value Equipment.stinger_grenade)
    ∷ (45, equipment_value Equipment.cs_gas_grenade)
    ∷ (46, equipment_value Equipment.flashbang_grenade)
    ∷ (47, equipment_value Equipment.baton_grenade)
    ∷ []

-- `weapon_encoded`: the equipment but for its first code
unfoldable pub weapon_encoded : Dict ℕ Text
unfolding equipment_encoded
weapon_encoded = select (λ (key, name). ltb 0 key) equipment_encoded

-- `ammo_encoded`
unfoldable pub ammo_encoded : Dict ℕ Text
unfolding ammo_value
ammo_encoded =
    (0, ammo_value Ammo.none)
    ∷ (1, ammo_value Ammo.m4_super90_sg_ammo)
    ∷ (2, ammo_value Ammo.m4_super90_sg_sabot_ammo)
    ∷ (3, ammo_value Ammo.nova_pump_sg_ammo)
    ∷ (4, ammo_value Ammo.nova_pump_sg_sabot_ammo)
    ∷ (5, ammo_value Ammo.less_lethal_ammo)
    ∷ (6, ammo_value Ammo.cs_ball_launcher_ammo)
    ∷ (7, ammo_value Ammo.m4a1mg_jhp)
    ∷ (8, ammo_value Ammo.m4a1mg_fmj)
    ∷ (9, ammo_value Ammo.ak47mg_fmj)
    ∷ (10, ammo_value Ammo.ak47mg_jhp)
    ∷ (11, ammo_value Ammo.g36kmg_fmj)
    ∷ (12, ammo_value Ammo.g36kmg_jhp)
    ∷ (13, ammo_value Ammo.uzismg_fmj)
    ∷ (14, ammo_value Ammo.uzismg_jhp)
    ∷ (15, ammo_value Ammo.mp5smg_jhp)
    ∷ (16, ammo_value Ammo.mp5smg_fmj)
    ∷ (17, ammo_value Ammo.ump45_smg_fmj)
    ∷ (18, ammo_value Ammo.ump45_smg_jhp)
    ∷ (19, ammo_value Ammo.colt_m1911_hg_jhp)
    ∷ (20, ammo_value Ammo.colt_m1911_hg_fmj)
    ∷ (21, ammo_value Ammo.glock_9mm_hg_jhp)
    ∷ (22, ammo_value Ammo.glock_9mm_hg_fmj)
    ∷ (23, ammo_value Ammo.python_revolver_hg_fmj)
    ∷ (24, ammo_value Ammo.python_revolver_hg_jhp)
    ∷ (25, ammo_value Ammo.taser_ammo)
    ∷ (26, ammo_value Ammo.vip_pistol_ammo_fmj)
    ∷ (27, ammo_value Ammo.colt_ar_fmj)
    ∷ (28, ammo_value Ammo.hk69gl_stinger_grenade_ammo)
    ∷ (29, ammo_value Ammo.hk69gl_flashbang_grenade_ammo)
    ∷ (30, ammo_value Ammo.hk69gl_csgas_grenade_ammo)
    ∷ (31, ammo_value Ammo.hk69gl_triple_baton_ammo)
    ∷ (32, ammo_value Ammo.sawmg_jhp)
    ∷ (33, ammo_value Ammo.sawmg_fmj)
    ∷ (34, ammo_value Ammo.fnp90_smg_fmj)
    ∷ (35, ammo_value Ammo.fnp90_smg_jhp)
    ∷ (36, ammo_value Ammo.dehg_fmj)
    ∷ (37, ammo_value Ammo.dehg_jhp)
    ∷ (38, ammo_value Ammo.tec9_smg_fmj)
    ∷ []

-- `equipment_reversed`, `ammo_reversed`, `weapon_reversed`
unfoldable pub equipment_reversed : Dict Text ℕ
unfolding equipment_encoded reversed
equipment_reversed = reversed equipment_encoded

unfoldable pub ammo_reversed : Dict Text ℕ
unfolding ammo_encoded reversed
ammo_reversed = reversed ammo_encoded

unfoldable pub weapon_reversed : Dict Text ℕ
unfolding weapon_encoded reversed
weapon_reversed = reversed weapon_encoded
