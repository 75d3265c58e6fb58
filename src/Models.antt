-- ===== src/Models.antt =====
-- tutor/models: the catalog of coach models and how a coach call is funded (catalog.py), the choice
-- of the providers from the settings (factory.py), and the roles' models (router.py).
pub mod Catalog
pub mod Choice
pub mod Resolve
pub mod Factory
