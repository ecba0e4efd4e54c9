-- ===== src/Database/Handler/Downloads.antt =====
-- pkg/database/handler.go: the links that let anybody download a database for a while.
use mathlib.Core.Path.{subst, subst₂}
use im_manager.Base.{
  ℕ, ◌+◌, ◌%◌, ◌^◌, ◌≤◌, ◌<◌, ◌≡◌, sym, ap, ◌∙◌, String, true, not, some, ◌==◌, string_eq, leb, inl,
  inr, arith,
}
use im_manager.Errdef.{ok, Result-cases}
use im_manager.Action.{continued-eq-ok}
use im_manager.Model.{User, Database, ExternalDownload}
use im_manager.Authorize.{can_access}
use im_manager.Database.Tables.{Tables, AreTables, Rows}
use im_manager.Database.Repository
use im_manager.Database.Repository.{plainly}
use im_manager.Database.Service
use im_manager.Database.Service.{Files}
use im_manager.Database.Service.Laws.{find_external_download-valid}
use im_manager.Database.Handler.{Others, access}
use im_manager.Database.Handler.Records.{
  CreateExternalDatabaseRequest, max_external_download_expiration_seconds, create_external_download,
  external_download,
}
use im_manager.Database.Handler.Permission.{access-eq-ok, find_by_id-keeps}
use im_manager.Web.{Request, went_on, Reply, data_binder, parse_uint_32, value_of}
use im_manager.Web.Laws.{
  chained-get_path_parameter-eq-went_on, chained-served-eq-went_on, chained-check-eq-went_on,
  chained-require-eq-went_on, data_binder-eq-ok, went_on-injective,
}

in_range :
    (now expiration : ℕ)
    → leb expiration 2592000 ≡ true
    → now < 2 ^ 63
    → ((now + expiration) % 2 ^ 64 ≡ now + expiration) × (expiration ≤ 2592000)
in_range now expiration small clock = ground arith

module _ {W : Type 0} (T : Tables W) (S : Files W) where
  store_download-eq-ok :
      (d d' : ExternalDownload) (w w' : W) → Repository.store_download T d w ≡ (ok d', w') → d ≡ d'
  unfolding Repository.store_download
  store_download-eq-ok d d' w w' e = elim (Result-cases (plainly (T.save_download d w).0)) [
    | inl (x, h) ↦ cc (rw (Repository.store_download, h) at e)
    | inr (x, h) ↦ absurd (cc (rw (Repository.store_download, h) at e))
  ]

  created-eq-ok :
      (id expiration : ℕ) (d : ExternalDownload) (w w' : W)
      → Service.create_external_download T S id expiration w ≡ (ok d, w')
      → (v : W) × (d.expiration ≡ (T.now v + expiration) % 2 ^ 64) × (d.database_id ≡ id)
  unfolding Service.create_external_download Repository.create_external_download
  created-eq-ok id expiration d w w' e =
      let (_, u, purged, rest) = continued-eq-ok (Repository.purge_external_download T w) _ e in
      let same = store_download-eq-ok _ d (T.new_uuid u).1 w' rest in
      ((T.new_uuid u).1, ap (λ x. x.expiration) (sym same), ap (λ x. x.database_id) (sym same))

  found-at :
      (id : ℕ) (d : Database) (w v : W)
      → Service.find_by_id T S id w ≡ (ok d, v)
      → Service.find_by_id T S id w ≡ (ok d, w)
  found-at id d w v e = e ∙ ap (λ x. (ok d, x)) (sym (ap (λ p. p.1) e) ∙ find_by_id-keeps T S id w)

  -- When CreateExternalDownload replies, the user in the context may access the database, and the link
  -- leads to it and expires as many seconds as requested after a reading of the clock, at most 30 days.
  -- The clock is assumed to read less than 2 ^ 63 seconds.
  pub create_external_download-eq-went_on :
      (O : Others W) (r : Request CreateExternalDatabaseRequest) (w w' : W)
      (a : Reply ExternalDownload)
      → ((v : W) → T.now v < 2 ^ 63)
      → create_external_download T S O r w ≡ (went_on a, w')
      → (user : User) × (id : ℕ) × (d : Database) × (request : CreateExternalDatabaseRequest)
        × (v : W) × (r.user ≡ some user)
        × (r.should_bind ≡ ok request)
        × (can_access user d ≡ true)
        × (parse_uint_32 (value_of r.params "id") ≡ some id)
        × (Service.find_by_id T S id w ≡ (ok d, w))
        × (a.body.database_id ≡ d.id)
        × (a.body.expiration ≡ T.now v + request.expiration)
        × (request.expiration ≤ 2592000)
  unfolding create_external_download
  create_external_download-eq-went_on O r w w' a clock e =
      let (id, named, e1) = chained-get_path_parameter-eq-went_on w r "id" _ e in
      let (request, bound, e2) = chained-check-eq-went_on (data_binder r) w _ e1 in
      let (small, e3) =
        chained-require-eq-went_on _ w _
          (leb request.expiration max_external_download_expiration_seconds) e2 in
      let (d, v, found, e4) = chained-served-eq-went_on (Service.find_by_id T S id w) _ e3 in
      let (u, passed, e5) = chained-check-eq-went_on (access r d) v _ e4 in
      let (link, u', created, e6) =
        chained-served-eq-went_on (Service.create_external_download T S d.id request.expiration v) _
          e5 in
      let (user, there, may) = access-eq-ok r d u passed in
      let (x, expires, leads) = created-eq-ok d.id request.expiration link v u' created in
      let same : link ≡ a.body = ap (λ z. z.body) (went_on-injective e6).0 in
      let (whole, bounded) = in_range (T.now x) request.expiration small (clock x) in
      (
        user,
        id,
        d,
        request,
        x,
        there,
        data_binder-eq-ok r request bound,
        may,
        named,
        found-at id d w v found,
        ap (λ z. z.database_id) (sym same) ∙ leads,
        ap (λ z. z.expiration) (sym same) ∙ expires ∙ whole,
        bounded,
      )

  -- When ExternalDownload replies, the path names a download that had not expired when it was looked
  -- up, and the reply has the database that it leads to, whose file was sent. The tables
  -- are assumed to behave as documented.
  pub external_download-eq-went_on :
      (rows : W → Rows) (O : Others W) {B : Type 0} (r : Request B) (w w' : W) (a : Reply Database)
      → AreTables T rows
      → external_download T S O r w ≡ (went_on a, w')
      → (uuid : String) × (link : ExternalDownload) × (v : W) × (O.parse_uuid
            (value_of r.params "uuid")
          ≡ ok uuid)
        × (Service.find_external_download T S uuid w ≡ (ok link, v))
        × (link.uuid ≡ uuid)
        × (T.now v < link.expiration)
        × (Service.find_by_id T S link.database_id v ≡ (ok a.body, v))
        × (Service.download T S a.body.id v ≡ (ok tt, w'))
  unfolding external_download
  external_download-eq-went_on rows O r w w' a lawful e =
      let (present, e1) =
        chained-require-eq-went_on _ w _ (not (value_of r.params "uuid" == "")) e in
      let (uuid, parsed, e2) =
        chained-check-eq-went_on (O.parse_uuid (value_of r.params "uuid")) w _ e1 in
      let (link, v, found, e3) =
        chained-served-eq-went_on (Service.find_external_download T S uuid w) _ e2 in
      let (d, u, leads, e4) =
        chained-served-eq-went_on (Service.find_by_id T S link.database_id v) _ e3 in
      let (x, y, sent, e5) = chained-served-eq-went_on (Service.download T S d.id u) _ e4 in
      let same : d ≡ a.body = ap (λ z. z.body) (went_on-injective e5).0 in
      let (named', valid) = find_external_download-valid T rows lawful S uuid w v link found in
      let at : u ≡ v =
        ap (λ p. p.1) (sym leads) ∙ ap (λ p. p.1) (found-at link.database_id d v u leads) in
      (
        uuid,
        link,
        v,
        parsed,
        found,
        named',
        valid,
        subst (λ z. Service.find_by_id T S link.database_id v ≡ (ok z, v)) same
            (found-at link.database_id d v u leads),
        subst₂ (λ z y'. Service.download T S z.id y' ≡ (ok tt, w')) same at
            (sent ∙ ap (λ z. (ok tt, z)) (went_on-injective e5).1),
      )
