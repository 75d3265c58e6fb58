-- ===== src/Grounding.antt =====
-- grounding_mcp: the slugs of the chapters (slug.py).
pub mod Slug
pub mod Corpus
pub mod Search
pub mod Tools
pub mod Withheld
pub mod Bounds
pub mod Client
pub mod Served
pub mod Calls
pub mod Markdown
pub mod Shown
pub mod Walk
pub mod Reachable
pub mod Found
pub mod Snippet
pub mod Excerpts
pub mod Solution
