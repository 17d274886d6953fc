-- ===== src/Lib.antt =====
-- shopfloor.io: a platform of NestJS services for the assets and the maintenance of a factory. This
-- library models the core logic of the asset manager, of the maintenance service, of the tenants, and of the
-- authentication that all services share.
--
-- asset-manager-backend/src
--   asset-property/property-variable-substitution.ts is Substitution: a property's value may contain
--     `${key}`, which is replaced by the value of the property of that key. `substitute_variable` is
--     substituteVariableForProp, `replace_loop` its while loop, `perform_variable_substitution` the exported
--     function. Values are lists of code units and positions are indices, as in the source. The function
--     takes fuel: one unit for each `}` of the value and of the values that are not yet visited, and one
--     more (`enough_fuel`), which is enough since each replacement uses up a `}` and each name is
--     inserted once (Substitution/Termination). The do loop stops at UPDATE_LIMIT by itself.
--   asset-property/dto/UnitedPropertyDto.ts is Overlay: the rows of the definition and of an asset, merged
--     field by field (`united_property` is the constructor).
--   asset-property/asset-property.service.ts is Properties: the two tables of definitions and values
--     (Properties.antt), fetching (Properties/Service), which adds the overwrites that an asset lacks and overlays
--     them, and the changes (Properties/Service/Changes). What runs without a transaction returns the store also
--     where it throws.
--   asset-hierarchy/asset-hierarchy-builder.ts is Hierarchy: the tree of assets, built from rows with a parent
--     and checked for loops and islands (`run`, `build`, `check`). The recursion takes fuel, one unit more
--     than there are rows, which is enough since each level visits a new id (Hierarchy/Termination).
--   asset-hierarchy/asset-hierarchy.service.ts is Hierarchy/Service: the table of parents, the check of the
--     tree after a move, and the cache of built trees, compared with a service that has no cache in
--     Hierarchy/Service/Refinement, for requests that are served one after the other: the cache is cleared
--     with the move, while the source clears it just before the commit. The cache's time limit is left out.
--   asset-type/asset-type.service.ts is AssetTypes: types that extend one another, the check for loops, which is
--     that of Hierarchy, and the lookup of the types that a type extends. Its loop takes fuel, one unit for each
--     pass; where the check has passed, some fuel is enough (AssetTypes/Inheritance).
--   asset/asset.service.ts is Assets: the lookups (Assets/Reading), updating and soft-deleting (Assets/Service),
--     creating and cloning (Assets/Creation), and the entries of activity-log (Assets/Activities). It calls
--     Properties. applyHierarchyTransformation, which calls the asset service, is Assets/Transforming: a
--     function tells which of its deletions, which nothing waits for, are carried out at once. What TypeORM
--     does when it saves aliases and documents is a parameter (`RelatedTable`).
--
-- maintenance-backend/src
--   the entities are in Maintenance, with the clock (Date and moment) and the tables of TypeORM as
--     parameters; Base/Repository states what the services use of a table.
--   maintenance-execution/maintenance-execution.service.ts is Maintenance/Executions: each handler is a
--     function from the store to a result with a new store. A transaction that throws leaves the
--     store as it was. What a handler finds around it (the time, the tenant's interval setting, the id that
--     the database generates) is its `Context`. Reading page by page is Maintenance/Executions/Paging.
--   asset-assignment/asset-assignment.service.ts is Maintenance/Assignments: looking up the current version of
--     a procedure, and creating, activating and deactivating its assignments to assets. An assignment that
--     is created or activated schedules an execution of Maintenance/Executions.
--   maintenance-procedure/maintenance-procedure.service.ts is Maintenance/Procedures: creating a procedure with
--     steps of three kinds, and, in Versions, updateProcedure, which outdates a version, creates the next one
--     and moves assignments and open executions to it, and Deletion, which deletes a procedure with its versions.
--     Ids of new rows are arguments (`NewIds`). Maintenance/Cascades is what the foreign keys of migrations delete.
--
-- shared/nestjs/src
--   auth/authMiddleware.ts, auth/external-kk-token.ts and auth/rolesGuard.ts are Auth: what a token grants
--     (`granted` is the body of decodeToken), whether a request is handed on (`authorize`), and whether a
--     user may use a route (`can_activate`). jsonwebtoken's decode, the schema of Joi and toLowerCase are
--     parameters, the settings of the process a record.
--   core/core-middleware-injector.service.ts and util/mutex.ts are Migrations: the migrations of a tenant that
--     run when its first request comes. A request is a state machine (`Phase`), `Move` its steps between the
--     awaits of newTenantInterceptor and of the listener, `Reach` any interleaving of requests of one process.
--
-- identity-backend/src: tenant-settings is Tenants/Settings, with the requests that change settings as a relation
--   (`Requests`). keycloak/keycloak-tenants.service.ts is Tenants/Keycloak, where the client of Keycloak is a
--   record of its calls, and tenant/tenant.service.ts is Tenants/Service: it keeps the tenants in the database,
--   asks Keycloak who may read and change them, and creates the default settings of a new one.
--
-- Base holds the shared names: lists over native numbers, texts, results, names and repositories.
--
-- Not modelled: the links to documents that a new procedure gets, library steps on their own, documents and
-- tiles, the users and roles of Keycloak;
-- the controllers, schemas and the other migrations, which NestJS, Joi and TypeORM interpret; the frontends and the
-- services that only pass data on. checkOverDueExecutions starts its calls without waiting for them, so its
-- selection and one of its calls are modelled and not their interleaving.
pub mod AssetTypes
pub mod Assets
pub mod Auth
pub mod Base
pub mod Hierarchy
pub mod Maintenance
pub mod Migrations
pub mod Overlay
pub mod Properties
pub mod Substitution
pub mod Tenants
