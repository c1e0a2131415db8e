-- ===== src/Schema/Maps.antt =====
-- The codes of maps (apps/tracker/schema.py).
use swat4stats.Base.{[], ◌∷◌}
use swat4stats.Base.Text.{Text, codes}
use swat4stats.Base.Eq.{codes_eq}
use swat4stats.Schema.Dict.{Dict, reversed}

-- `mapnames_encoded`
unfoldable pub mapnames_encoded : Dict Text Text
mapnames_encoded =
    (codes "-1", codes "Unknown Map")
    ∷ (codes "0", codes "A-Bomb Nightclub")
    ∷ (codes "1", codes "Brewer County Courthouse")
    ∷ (codes "2", codes "Children of Taronne Tenement")
    ∷ (codes "3", codes "DuPlessis Diamond Center")
    ∷ (codes "4", codes "Enverstar Power Plant")
    ∷ (codes "5", codes "Fairfax Residence")
    ∷ (codes "6", codes "Food Wall Restaurant")
    ∷ (codes "7", codes "Meat Barn Restaurant")
    ∷ (codes "8", codes "Mt. Threshold Research Center")
    ∷ (codes "9", codes "Northside Vending")
    ∷ (codes "10", codes "Old Granite Hotel")
    ∷ (codes "11", codes "Qwik Fuel Convenience Store")
    ∷ (codes "12", codes "Red Library Offices")
    ∷ (codes "13", codes "Riverside Training Facility")
    ∷ (codes "14", codes "St. Michael's Medical Center")
    ∷ (codes "15", codes "The Wolcott Projects")
    ∷ (codes "16", codes "Victory Imports Auto Center")
    ∷ (codes "17", codes "-EXP- Department of Agriculture")
    ∷ (codes "18", codes "-EXP- Drug Lab")
    ∷ (codes "19", codes "-EXP- Fresnal St. Station")
    ∷ (codes "20", codes "-EXP- FunTime Amusements")
    ∷ (codes "21", codes "-EXP- Sellers Street Auditorium")
    ∷ (codes "22", codes "-EXP- Sisters of Mercy Hostel")
    ∷ (codes "23", codes "-EXP- Stetchkov Warehouse")
    ∷ (codes "24", codes "Untitled")
    ∷ (codes "25", codes "Fairfaxe Reloaded")
    ∷ (codes "26", codes "Final Crack Down, COOP")
    ∷ (codes "27", codes "ApartmentNew")
    ∷ (codes "28", codes "Saint-Paul Asylum")
    ∷ (codes "29", codes "[c=ffff00]ESA's [c=1e90ff]Foodwall Edit")
    ∷ (codes "30", codes "La Mina v.1.5")
    ∷ (codes "31", codes "Operation Apollo COOP 1.1 - FIX")
    ∷ (codes "32", codes "Cave Complex")
    ∷ (codes "33", codes "Predator2")
    ∷ (codes "34", codes "{EP}Matt´s  Power Plant TSS")
    ∷ (codes "35", codes "Qwik Fuel (Desrat's SAG)")
    ∷ (codes "36", codes "Black Water-TTC 1.1")
    ∷ (codes "37", codes "The Watercrip")
    ∷ (codes "38", codes "2940 Enemy Territory MP")
    ∷ (codes "39", codes "Newfort (Revision 24) TSS")
    ∷ (codes "40", codes "-EXP- Drug Lab-RMX")
    ∷ (codes "41", codes "Riverside Training (Desrat's SAG)")
    ∷ (codes "42", codes "The Building")
    ∷ (codes "43", codes "Newfort (Revision 24)")
    ∷ (codes "44", codes "Wolcott (Desrat's SAG)")
    ∷ (codes "45", codes "Operation Apollo 1.1 - FIXED")
    ∷ (codes "46", codes "Office Space V2.0")
    ∷ (codes "47", codes "panic room")
    ∷ (codes "48", codes "mistero18-byilmassacratore")
    ∷ (codes "49", codes "The Phoenix Club")
    ∷ (codes "50", codes "The Hive (VIP)")
    ∷ (codes "51", codes "U-273")
    ∷ (codes "52", codes "The Manor - 1.1 - 2013")
    ∷ (codes "53", codes "-EXP- Newfort (Revision 27)")
    ∷ (codes "54", codes "City Streets 1.0")
    ∷ (codes "55", codes "LA City Hall")
    ∷ (codes "56", codes "-MODv- California Security Bank - FIXED")
    ∷ (codes "57", codes "Car's dealer v1.2")
    ∷ (codes "58", codes "Mout McKenna 1.0")
    ∷ (codes "59", codes "Desert ops -Village- 1.0")
    ∷ (codes "60", codes "INTERVAL - 17 - Rmx")
    ∷ (codes "61", codes "Ashes and Ghosts -Night-")
    ∷ (codes "62", codes "Penthouse")
    ∷ (codes "63", codes "Civil Unrest")
    ∷ (codes "64", codes "Storm Front")
    ∷ (codes "65", codes "Johnson Residence")
    ∷ (codes "66", codes "Operation Prison Break")
    ∷ (codes "67", codes "C-Block")
    ∷ (codes "68", codes "The Hive 1.1")
    ∷ (codes "69", codes "BattleShips")
    ∷ (codes "70", codes "Children of Taronne (Desrat's SAG)")
    ∷ (codes "71", codes "Fast Break - Through")
    ∷ (codes "72", codes "A-Bomb (Desrat's SAG)")
    ∷ (codes "73", codes "Ashes and Ghosts -Day-")
    ∷ (codes "74", codes "ESA's 3or1")
    ∷ (codes "75", codes "MP-Terminal")
    ∷ (codes "76", codes "The Entrepot")
    ∷ (codes "77", codes "E.T.E.R. Training Center")
    ∷ (codes "78", codes "Subway Station v1.0")
    ∷ (codes "79", codes "Stuck in the Woods")
    ∷ (codes "80", codes "-EXP- Sisters of Mercy-RMX")
    ∷ (codes "81", codes "Research Center (Desrat's SAG)")
    ∷ (codes "82", codes "Brewer County (Desrat's SAG)")
    ∷ (codes "83", codes "Stuck in the woods")
    ∷ (codes "84", codes "{EP}Matt´s Drugs Deal TSS")
    ∷ (codes "85", codes "Snake's loft")
    ∷ (codes "86", codes "NewfortBeta")
    ∷ (codes "87", codes "BLUES CLUB")
    ∷ (codes "88", codes "Fairfax Residence (Desrat's SAG)")
    ∷ (codes "89", codes "Construction")
    ∷ (codes "90", codes "Sky Tower")
    ∷ (codes "91", codes "Food Wall (Desrat's SAG)")
    ∷ (codes "92", codes "California Security Bank")
    ∷ (codes "93", codes "Dark Waters")
    ∷ (codes "94", codes "Operation Apollo COOP 1.1")
    ∷ (codes "95", codes "FAYA's REFUGEES v1.0")
    ∷ (codes "96", codes "Victory Imports (Desrat's SAG)")
    ∷ (codes "97", codes "Residential Ops.")
    ∷ (codes "98", codes "2940 Enemy Territory")
    ∷ (codes "99", codes "Clear - Room Service")
    ∷ (codes "100", codes "Tantive IV")
    ∷ (codes "101", codes "Red Library (Desrat's SAG)")
    ∷ (codes "102", codes "Dark Scarlet Restaurant")
    ∷ (codes "103", codes "LA MINA")
    ∷ (codes "104", codes "Precinct HQ 1.1")
    ∷ (codes "105", codes "Novatech's Building")
    ∷ (codes "106", codes "Mout McKenna Snow 1.0")
    ∷ (codes "107", codes "(SEALMAP)Desert_Dust")
    ∷ (codes "108", codes "Mogadishu Mile 1.0")
    ∷ (codes "109", codes "ATL Convention Center")
    ∷ (codes "110", codes "Gangster_Hangout")
    ∷ (codes "111", codes "(SEALMAP)Renovate TSS")
    ∷ (codes "112", codes "Brentwood Reloaded")
    ∷ (codes "113", codes "Operation Apollo 1.1")
    ∷ (codes "114", codes "The China Hotel")
    ∷ (codes "115", codes "Mad Shopping")
    ∷ (codes "116", codes "(SEALMAP)School")
    ∷ (codes "117", codes "Diamond Center (Desrat's SAG)")
    ∷ (codes "118", codes "Newfort2xSus")
    ∷ (codes "119", codes "Ocean Avenue 112")
    ∷ (codes "120", codes "|ustt| Enemy Territory V2")
    ∷ (codes "121", codes "Project -SERO- 1.0")
    ∷ (codes "122", codes "C-Block Taronne is back")
    ∷ (codes "123", codes "Reality Simulation Logistic V1.0")
    ∷ (codes "124", codes "Power Plant (Desrat's SAG)")
    ∷ (codes "125", codes "5455, Carlton Way")
    ∷ (codes "126", codes "Assault On City Hall")
    ∷ (codes "127", codes "Fy_Iceworld2005")
    ∷ (codes "128", codes "Art Center 1.0")
    ∷ (codes "129", codes "Wainwright Offices")
    ∷ (codes "130", codes "Children of Tenement-RMX")
    ∷ (codes "131", codes "Police Station 1.0 - 2013")
    ∷ (codes "132", codes "Hotel Carlyle 2005 v.2.0")
    ∷ (codes "133", codes "The Asylum")
    ∷ (codes "134", codes "Final Crack Down, Barricaded Suspects")
    ∷ (codes "135", codes "New Library 1.0")
    ∷ (codes "136", codes "Star Wars")
    ∷ (codes "137", codes "-MODv- Johnson Residence - FIXED")
    ∷ (codes "138", codes "-MODv- Hotel Carlyle 2005 - FIXED")
    ∷ (codes "139", codes "Old Granite Hotel (Desrat's SAG)")
    ∷ (codes "140", codes "Section 8 Fairfax Massacre")
    ∷ (codes "141", codes "Club ATL")
    ∷ (codes "142", codes "DELTA CENTER")
    ∷ (codes "143", codes "Mittelplate Alpha 1.1")
    ∷ (codes "144", codes "panic room Coop")
    ∷ (codes "145", codes "Mittelplate Alpha 1.2")
    ∷ (codes "146", codes "Residential Ops VIP")
    ∷ (codes "147", codes "Nova Corp.")
    ∷ (codes "148", codes "Flash Light Tag")
    ∷ (codes "149", codes "Mad Butcher`s Shop")
    ∷ (codes "150", codes "CREEPY HOTEL")
    ∷ (codes "151", codes "SSF Night Rescue")
    ∷ (codes "152", codes "Operation Prison Break TSS")
    ∷ (codes "153", codes "Terminal")
    ∷ (codes "154", codes "Paintball Madness")
    ∷ (codes "155", codes "Madmap")
    ∷ (codes "156", codes "[c=ffff00]ESA's [c=1e90ff]Riverside Edit")
    ∷ (codes "157", codes "The Baths Of Anubis")
    ∷ (codes "158", codes "DEAD_END")
    ∷ (codes "159", codes "KEOWAREHOUSE")
    ∷ (codes "160", codes "DeAdMaNs UsEd CaR LoT")
    ∷ (codes "161", codes "Ventura Hotel")
    ∷ (codes "162", codes "SP-UNDERGROUND")
    ∷ (codes "163", codes "Medical Center (Desrat's SAG)")
    ∷ (codes "164", codes "The Metropol")
    ∷ (codes "165", codes "MP-Le Camp")
    ∷ (codes "166", codes "SubWay")
    ∷ (codes "167", codes "The Killing House -Small-")
    ∷ (codes "168", codes "Reaction: Ak/Colt")
    ∷ (codes "169", codes "=HT=Operation Freedom")
    ∷ (codes "170", codes "Genovese & Feinbloom")
    ∷ (codes "171", codes "|ustt| Enemy Territory V2 CoOp")
    ∷ (codes "172", codes "The Building v1.1")
    ∷ (codes "173", codes "AssasinationRoom, Aupicia:Clan A-T")
    ∷ (codes "174", codes "Department Of Criminal Justice V1")
    ∷ (codes "175", codes "Combat Zone")
    ∷ (codes "176", codes "Ventura Hotel v1r1")
    ∷ (codes "177", codes "{EP}Matt´s Medical Center TSS")
    ∷ (codes "178", codes "SSF TrainingCenter 1.0")
    ∷ (codes "179", codes "Operation Dusk Till Dawn")
    ∷ (codes "180", codes "MP Rush")
    ∷ (codes "181", codes "SP-TRANSPORT")
    ∷ (codes "182", codes "Parking Garage v1.0")
    ∷ (codes "183", codes "Club -[*ATL*]-")
    ∷ (codes "184", codes "TERRORISTA")
    ∷ (codes "185", codes "Meat Barn (Desrat's SAG)")
    ∷ (codes "186", codes "Gris Import Export")
    ∷ (codes "187", codes "The Cinepark Conflict")
    ∷ (codes "188", codes "Cabin Fever")
    ∷ (codes "189", codes "Swanky Mansion")
    ∷ (codes "190", codes "Apartment 525")
    ∷ (codes "191", codes "Warehouse 5th Street")
    ∷ (codes "192", codes "Operation DayBreak")
    ∷ (codes "193", codes "Brewer County Courthouse COOP")
    ∷ (codes "194", codes "Food Wall Restaurant butchered")
    ∷ (codes "195", codes "Fede's Nightmare")
    ∷ (codes "196", codes "(SEALMAP)Central_Base")
    ∷ []

-- `mapnames_reversed`
unfoldable pub mapnames_reversed : Dict Text Text
unfolding mapnames_encoded reversed
mapnames_reversed = reversed mapnames_encoded
