-- ===== src/Node.antt =====
-- internal/node: the manager of the core, its statistics, its users and its plugin.
pub mod Stats
pub mod Totals
pub mod Carried
pub mod Complete
pub mod Grouped
pub mod Traffic
pub mod UserTraffic
pub mod Usage
pub mod Marker
pub mod Config
pub mod ApiConfig
pub mod Files
pub mod Health
pub mod Waiting
pub mod Activation
pub mod Restart
pub mod Served
pub mod Restoring
pub mod RollingBack
pub mod Refines
pub mod Activating
pub mod Users
pub mod Start
pub mod Removal
pub mod Lists
pub mod Plugin
pub mod Nft
pub mod Blocking
pub mod Validation
pub mod Sorted
pub mod Ports
pub mod Resolved
pub mod Compiled
pub mod PluginHistory
pub mod Syncing
pub mod Connections
pub mod Status
mod Tests
mod PluginTests
