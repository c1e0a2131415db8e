-- ===== src/Entities/Ammo.antt =====
-- Ammunition (apps/tracker/entities.py).
use swat4stats.Base.Text.{Text, codes}

-- `class Ammo`
pub data Ammo : Type 0 where
  none : Ammo
  m4_super90_sg_ammo : Ammo
  m4_super90_sg_sabot_ammo : Ammo
  nova_pump_sg_ammo : Ammo
  nova_pump_sg_sabot_ammo : Ammo
  less_lethal_ammo : Ammo
  cs_ball_launcher_ammo : Ammo
  m4a1mg_jhp : Ammo
  m4a1mg_fmj : Ammo
  ak47mg_fmj : Ammo
  ak47mg_jhp : Ammo
  g36kmg_fmj : Ammo
  g36kmg_jhp : Ammo
  uzismg_fmj : Ammo
  uzismg_jhp : Ammo
  mp5smg_jhp : Ammo
  mp5smg_fmj : Ammo
  ump45_smg_fmj : Ammo
  ump45_smg_jhp : Ammo
  colt_m1911_hg_jhp : Ammo
  colt_m1911_hg_fmj : Ammo
  glock_9mm_hg_jhp : Ammo
  glock_9mm_hg_fmj : Ammo
  python_revolver_hg_fmj : Ammo
  python_revolver_hg_jhp : Ammo
  taser_ammo : Ammo
  vip_pistol_ammo_fmj : Ammo
  colt_ar_fmj : Ammo
  hk69gl_stinger_grenade_ammo : Ammo
  hk69gl_flashbang_grenade_ammo : Ammo
  hk69gl_csgas_grenade_ammo : Ammo
  hk69gl_triple_baton_ammo : Ammo
  sawmg_jhp : Ammo
  sawmg_fmj : Ammo
  fnp90_smg_fmj : Ammo
  fnp90_smg_jhp : Ammo
  dehg_fmj : Ammo
  dehg_jhp : Ammo
  tec9_smg_fmj : Ammo

-- `.value`
unfoldable pub ammo_value : Ammo → Text
ammo_value Ammo.none = codes "None"
ammo_value Ammo.m4_super90_sg_ammo = codes "M4Super90SGAmmo"
ammo_value Ammo.m4_super90_sg_sabot_ammo = codes "M4Super90SGSabotAmmo"
ammo_value Ammo.nova_pump_sg_ammo = codes "NovaPumpSGAmmo"
ammo_value Ammo.nova_pump_sg_sabot_ammo = codes "NovaPumpSGSabotAmmo"
ammo_value Ammo.less_lethal_ammo = codes "LessLethalAmmo"
ammo_value Ammo.cs_ball_launcher_ammo = codes "CSBallLauncherAmmo"
ammo_value Ammo.m4a1mg_jhp = codes "M4A1MG_JHP"
ammo_value Ammo.m4a1mg_fmj = codes "M4A1MG_FMJ"
ammo_value Ammo.ak47mg_fmj = codes "AK47MG_FMJ"
ammo_value Ammo.ak47mg_jhp = codes "AK47MG_JHP"
ammo_value Ammo.g36kmg_fmj = codes "G36kMG_FMJ"
ammo_value Ammo.g36kmg_jhp = codes "G36kMG_JHP"
ammo_value Ammo.uzismg_fmj = codes "UZISMG_FMJ"
ammo_value Ammo.uzismg_jhp = codes "UZISMG_JHP"
ammo_value Ammo.mp5smg_jhp = codes "MP5SMG_JHP"
ammo_value Ammo.mp5smg_fmj = codes "MP5SMG_FMJ"
ammo_value Ammo.ump45_smg_fmj = codes "UMP45SMG_FMJ"
ammo_value Ammo.ump45_smg_jhp = codes "UMP45SMG_JHP"
ammo_value Ammo.colt_m1911_hg_jhp = codes "ColtM1911HG_JHP"
ammo_value Ammo.colt_m1911_hg_fmj = codes "ColtM1911HG_FMJ"
ammo_value Ammo.glock_9mm_hg_jhp = codes "Glock9mmHG_JHP"
ammo_value Ammo.glock_9mm_hg_fmj = codes "Glock9mmHG_FMJ"
ammo_value Ammo.python_revolver_hg_fmj = codes "PythonRevolverHG_FMJ"
ammo_value Ammo.python_revolver_hg_jhp = codes "PythonRevolverHG_JHP"
ammo_value Ammo.taser_ammo = codes "TaserAmmo"
ammo_value Ammo.vip_pistol_ammo_fmj = codes "VIPPistolAmmo_FMJ"
ammo_value Ammo.colt_ar_fmj = codes "ColtAR_FMJ"
ammo_value Ammo.hk69gl_stinger_grenade_ammo = codes "HK69GL_StingerGrenadeAmmo"
ammo_value Ammo.hk69gl_flashbang_grenade_ammo = codes "HK69GL_FlashbangGrenadeAmmo"
ammo_value Ammo.hk69gl_csgas_grenade_ammo = codes "HK69GL_CSGasGrenadeAmmo"
ammo_value Ammo.hk69gl_triple_baton_ammo = codes "HK69GL_TripleBatonAmmo"
ammo_value Ammo.sawmg_jhp = codes "SAWMG_JHP"
ammo_value Ammo.sawmg_fmj = codes "SAWMG_FMJ"
ammo_value Ammo.fnp90_smg_fmj = codes "FNP90SMG_FMJ"
ammo_value Ammo.fnp90_smg_jhp = codes "FNP90SMG_JHP"
ammo_value Ammo.dehg_fmj = codes "DEHG_FMJ"
ammo_value Ammo.dehg_jhp = codes "DEHG_JHP"
ammo_value Ammo.tec9_smg_fmj = codes "TEC9SMG_FMJ"
