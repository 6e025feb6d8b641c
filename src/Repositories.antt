-- ===== src/Repositories.antt =====
-- app/adapters/outbound/repositories.py: the three repositories.
mod Tests
pub mod Mapping
pub mod Festivals
pub mod Listing
pub mod CatalogGames
pub mod Promotions
pub mod Games
pub mod Sync
pub mod RoundTrip
