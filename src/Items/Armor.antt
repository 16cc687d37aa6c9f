-- ===== src/Items/Armor.antt =====
-- Armor: defense points and slots.
use macintosh_craft.Base.{ℕ, List, [], ◌∷◌, ◌==◌, if◌then◌else◌}
use macintosh_craft.Registry.{Registry, Item}
use macintosh_craft.Items.{is_one_of}

abbrev pub helmets : List Item
helmets =
    Item.leather_helmet ∷ Item.golden_helmet ∷ Item.iron_helmet ∷ Item.diamond_helmet
    ∷ Item.netherite_helmet ∷ []

abbrev pub chestplates : List Item
chestplates =
    Item.leather_chestplate ∷ Item.golden_chestplate ∷ Item.iron_chestplate
    ∷ Item.diamond_chestplate ∷ Item.netherite_chestplate ∷ []

abbrev pub leggings : List Item
leggings =
    Item.leather_leggings ∷ Item.golden_leggings ∷ Item.iron_leggings ∷ Item.diamond_leggings
    ∷ Item.netherite_leggings ∷ []

abbrev pub boots : List Item
boots =
    Item.leather_boots ∷ Item.golden_boots ∷ Item.iron_boots ∷ Item.diamond_boots
    ∷ Item.netherite_boots ∷ []

unfoldable pub get_armor_item_slot : Registry → ℕ → ℕ
get_armor_item_slot r item =
    if is_one_of r item helmets
    then 39
    else if is_one_of r item chestplates
    then 38
    else if is_one_of r item leggings
    then 37
    else if is_one_of r item boots
    then 36
    else 255

-- The `switch` of `getItemDefensePoints`, in its order.
unfoldable pub get_item_defense_points : Registry → ℕ → ℕ
get_item_defense_points r item =
    if item == r.item Item.leather_helmet
    then 1
    else if is_one_of r item (Item.golden_helmet ∷ Item.iron_helmet ∷ [])
    then 2
    else if is_one_of r item
        (Item.diamond_helmet ∷ Item.netherite_helmet ∷ Item.leather_chestplate ∷ [])
    then 3
    else if item == r.item Item.golden_chestplate
    then 5
    else if item == r.item Item.iron_chestplate
    then 6
    else if is_one_of r item (Item.diamond_chestplate ∷ Item.netherite_chestplate ∷ [])
    then 8
    else if item == r.item Item.leather_leggings
    then 2
    else if item == r.item Item.golden_leggings
    then 3
    else if item == r.item Item.iron_leggings
    then 5
    else if is_one_of r item (Item.diamond_leggings ∷ Item.netherite_leggings ∷ [])
    then 6
    else if is_one_of r item (Item.leather_boots ∷ Item.golden_boots ∷ [])
    then 1
    else if item == r.item Item.iron_boots
    then 2
    else if is_one_of r item (Item.diamond_boots ∷ Item.netherite_boots ∷ [])
    then 3
    else 0
