-- ===== src/NameServer/Commands/Grants.antt =====
-- What an approval gives, and what becomes of the request.
