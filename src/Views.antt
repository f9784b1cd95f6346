-- ===== src/Views.antt =====
-- static/js/vue-support: what the components of the page compute, from the items that they show.
pub mod Printed
pub mod Channels
pub mod Events
pub mod Uplink
pub mod Files
pub mod Tabs
pub mod Render
