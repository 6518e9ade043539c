-- ===== src/Domain.antt =====
-- Enumerations and records of domain/enums.py and domain/models.py.
pub mod Enums
pub mod Models
