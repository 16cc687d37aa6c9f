-- ===== src/Crafting.antt =====
-- crafting.c: what crafting grids and furnaces make of their items.
pub mod Smelting
pub mod Recipes
pub mod Output
