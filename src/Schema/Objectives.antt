-- ===== src/Schema/Objectives.antt =====
-- The codes of objectives (apps/tracker/schema.py).
use swat4stats.Base.{ℕ, [], ◌∷◌}
use swat4stats.Base.Text.{Text, codes}
use swat4stats.Base.Eq.{codes_eq}
use swat4stats.Schema.Dict.{Dict, reversed}

-- `objectives_encoded`
unfoldable pub objectives_encoded : Dict ℕ Text
objectives_encoded =
    (0, codes "Rendezvous with Jennings")
    ∷ (1, codes "Avoid civilian injuries")
    ∷ (2, codes "Avoid officer injuries")
    ∷ (3, codes "Avoid officer casualties")
    ∷ (4, codes "Avoid suspect casualties")
    ∷ (5, codes "Avoid injuries to yourself")
    ∷ (6, codes "Debrief before the timer expires")
    ∷ (7, codes "Find and deactivate the bombs")
    ∷ (8, codes "Find and disarm the bombs!")
    ∷ (9, codes "Investigate the laundromat")
    ∷ (10, codes "Neutralize Alice Jenkins")
    ∷ (11, codes "Bring order to chaos")
    ∷ (12, codes "Neutralize Javier Arias")
    ∷ (13, codes "Neutralize Andrew Taronne")
    ∷ (14, codes "Neutralize Anton Georgiev")
    ∷ (15, codes "Neutralize Simon Gowan")
    ∷ (16, codes "Neutralize Lian Niu")
    ∷ (17, codes "Neutralize Alex Jimenez")
    ∷ (18, codes "Neutralize Lawrence Fairfax")
    ∷ (19, codes "Neutralize Kiril Stetchkov")
    ∷ (20, codes "Neutralize Hadeon Koshka")
    ∷ (21, codes "Neutralize Allen Kruse")
    ∷ (22, codes "Neutralize Andrew Norman")
    ∷ (23, codes "Neutralize Jean Trouffant")
    ∷ (24, codes "Neutralize Todor Stetchkov")
    ∷ (25, codes "Rescue Lawrence Adams")
    ∷ (26, codes "Rescue all of the civilians")
    ∷ (27, codes "Rescue Gary Altman")
    ∷ (28, codes "Arrest Louie Baccus")
    ∷ (29, codes "Rescue James Betincourt")
    ∷ (30, codes "Rescue Oscar Bogard")
    ∷ (31, codes "Rescue Warren Rooney")
    ∷ (32, codes "Rescue Hyun-Jun Park")
    ∷ (33, codes "Rescue Willis Fischer")
    ∷ (34, codes "Rescue Melinda Kline")
    ∷ (35, codes "Rescue Lionel Macarthur")
    ∷ (36, codes "Rescue Heidi Rosenstein")
    ∷ (37, codes "Rescue Dr. Theodore Sturgeon")
    ∷ (38, codes "Rescue Kim Dong Yin")
    ∷ (39, codes "Rescue Detective Walsh")
    ∷ (40, codes "Locate Officer Wilkins")
    ∷ (41, codes "Rescue Rita Winston")
    ∷ (42, codes "Secure the briefcase")
    ∷ (43, codes "Secure the MAC-10")
    ∷ []

-- `objective_mapping`
unfoldable pub objective_mapping : Dict Text Text
objective_mapping =
    (codes "Arrest_Jennings", codes "Rendezvous with Jennings")
    ∷ (codes "Custom_NoCiviliansInjured", codes "Avoid civilian injuries")
    ∷ (codes "Neutralize_Alice", codes "Neutralize Alice Jenkins")
    ∷ (codes "Neutralize_All_Enemies", codes "Bring order to chaos")
    ∷ (codes "Neutralize_Arias", codes "Neutralize Javier Arias")
    ∷ (codes "Neutralize_CultLeader", codes "Neutralize Andrew Taronne")
    ∷ (codes "Neutralize_Georgiev", codes "Neutralize Anton Georgiev")
    ∷ (codes "Neutralize_Grover", codes "Neutralize Simon Gowan")
    ∷ (codes "Neutralize_GunBroker", codes "Neutralize Lian Niu")
    ∷ (codes "Neutralize_Jimenez", codes "Neutralize Alex Jimenez")
    ∷ (codes "Neutralize_Killer", codes "Neutralize Lawrence Fairfax")
    ∷ (codes "Neutralize_Kiril", codes "Neutralize Kiril Stetchkov")
    ∷ (codes "Custom_NoOfficersInjured", codes "Avoid officer injuries")
    ∷ (codes "Neutralize_Koshka", codes "Neutralize Hadeon Koshka")
    ∷ (codes "Neutralize_Kruse", codes "Neutralize Allen Kruse")
    ∷ (codes "Neutralize_Norman", codes "Neutralize Andrew Norman")
    ∷ (codes "Neutralize_TerrorLeader", codes "Neutralize Jean Trouffant")
    ∷ (codes "Neutralize_Todor", codes "Neutralize Todor Stetchkov")
    ∷ (codes "Rescue_Adams", codes "Rescue Lawrence Adams")
    ∷ (codes "Rescue_All_Hostages", codes "Rescue all of the civilians")
    ∷ (codes "Rescue_Altman", codes "Rescue Gary Altman")
    ∷ (codes "Rescue_Baccus", codes "Arrest Louie Baccus")
    ∷ (codes "Rescue_Bettencourt", codes "Rescue James Betincourt")
    ∷ (codes "Custom_NoOfficersKilled", codes "Avoid officer casualties")
    ∷ (codes "Rescue_Bogard", codes "Rescue Oscar Bogard")
    ∷ (codes "Rescue_CEO", codes "Rescue Warren Rooney")
    ∷ (codes "Rescue_Diplomat", codes "Rescue Hyun-Jun Park")
    ∷ (codes "Rescue_Fillinger", codes "Rescue Willis Fischer")
    ∷ (codes "Rescue_Kline", codes "Rescue Melinda Kline")
    ∷ (codes "Rescue_Macarthur", codes "Rescue Lionel Macarthur")
    ∷ (codes "Rescue_Rosenstein", codes "Rescue Heidi Rosenstein")
    ∷ (codes "Rescue_Sterling", codes "Rescue Dr. Theodore Sturgeon")
    ∷ (codes "Rescue_Victims", codes "Rescue Kim Dong Yin")
    ∷ (codes "Rescue_Walsh", codes "Rescue Detective Walsh")
    ∷ (codes "Custom_NoSuspectsKilled", codes "Avoid suspect casualties")
    ∷ (codes "Rescue_Wilkins", codes "Locate Officer Wilkins")
    ∷ (codes "Rescue_Winston", codes "Rescue Rita Winston")
    ∷ (codes "Secure_Briefcase", codes "Secure the briefcase")
    ∷ (codes "Secure_Weapon", codes "Secure the MAC-10")
    ∷ (codes "Custom_PlayerUninjured", codes "Avoid injuries to yourself")
    ∷ (codes "Custom_Timed", codes "Debrief before the timer expires")
    ∷ (codes "Disable_Bombs", codes "Find and deactivate the bombs")
    ∷ (codes "Disable_Office_Bombs", codes "Find and disarm the bombs!")
    ∷ (codes "Investigate_Laundromat", codes "Investigate the laundromat")
    ∷ (codes "BangAndClear", codes "Order the element to Bang and Clear")
    ∷ (codes "BlueStackUp", codes "Order the Blue Team to Stack Up")
    ∷ (codes "CommandThroughViewport", codes "Order Blue to Move & Clear using viewport")
    ∷ (codes "Complete_GrenadePractice", codes "Try each of the grenades")
    ∷ (codes "Complete_LockedDoors", codes "Get through the locked doors")
    ∷ (codes "Complete_ShootingRange", codes "Fire your weapons at all three distances")
    ∷ (codes "Complete_TargetPractice", codes "Shoot each of the four targets")
    ∷ (codes "Complete_Training", codes "Complete the training course")
    ∷ (codes "FirstDefault", codes "Order the element to Fall In")
    ∷ (codes "Keep_Cadets_Healthy", codes "Do not incapacitate the volunteers")
    ∷ (codes "Keep_Trainer_Alive", codes "Do not kill Lieutenant Bonds")
    ∷ (codes "Keep_Volunteers_Alive", codes "Do not kill the volunteers")
    ∷ (codes "MoveRedToOtherDoor", codes "Bring Red to the door on the left")
    ∷ (codes "Neutralize_Moretti", codes "Neutralize Adam Moretti")
    ∷ (codes "OpenAndClearDefault", codes "Order the element to Open and Clear")
    ∷ (codes "Rescue_Hanson", codes "Do not kill Officer Hanson")
    ∷ (codes "Rescue_Hostages", codes "Rescue as many civilians as possible")
    ∷ (codes "RestrainHanson", codes "Restrain Officer Hanson")
    ∷ (codes "Training_ProtectOfficers", codes "Do not kill your fellow officers")
    ∷ (codes "UseOptiwand", codes "Order the element to Move and Clear")
    ∷ (codes "UseSniper", codes "Shoot the target with the sniper")
    ∷ (codes "YellCompliance", codes "Get Officer Hanson to comply")
    ∷ []

-- `objectives_reversed`
unfoldable pub objectives_reversed : Dict Text ℕ
unfolding objectives_encoded reversed
objectives_reversed = reversed objectives_encoded
