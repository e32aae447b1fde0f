-- ===== src/Lib.antt =====
-- Dymension RollApps block explorer: a verification library of the web application.
--
-- The program is the TypeScript of web-app/src. The indexer, another program, fills a database
-- with the RollApps and their transactions; the application reads the list of RollApps from it,
-- keeps that list and the selected RollApp in a store that all pages share, and fetches blocks,
-- transactions, accounts and validators from the RPC server of the selected RollApp.
--
-- Which file models which part:
-- - Pagination: page sizes, pages and offsets (web-app/src/utils/common.ts,
--   web-app/src/consts/setting.ts).
-- - Pathname: the RollApp's segment in the address of a page (web-app/src/utils/common.ts);
--   Pathname/Menu: web-app/src/components/client/commons/Layout/_Sider.tsx.
-- - Rollapp: the RollApps, their addresses and the favorites (web-app/src/utils/rollapp.ts,
--   web-app/src/services/chain.service.ts, the row of web-app/src/services/db/chainInfo.ts).
--   `get_rollapp_path_by_name` is `getRollappPathByName`, and so on: names are those of the source
--   in another spelling.
-- - Store: `useStore` of web-app/src/hooks/useStore.ts as `begin`, `commit`, `dispatch`, `listen`
--   and `unlisten`; Store/State: web-app/src/utils/store.ts and the state of
--   web-app/src/stores/rollappStore.ts; Store/Actions: its actions; Store/Provider:
--   web-app/src/components/client/commons/StoreProvider.tsx. RollApp objects are shared and mutated
--   in place, so they stand on a heap. An action runs before the `await` of the dispatch and its
--   patch is merged behind it, so two dispatches may overlap (Store/Overlap).
-- - Rpc: the requests of web-app/src/utils/rpc.ts; Rpc/Service: web-app/src/services/rpc.service.ts.
-- - Hooks: the shape of the fetching hooks, as a state and its events; Hooks/Queries: what differs
--   between the hooks of web-app/src/hooks; Hooks/Denoms: web-app/src/hooks/useDenomsMetadata.ts;
--   Hooks/Recent: web-app/src/hooks/useRecentBlocks.ts and web-app/src/hooks/useLatestBlock.ts;
--   Hooks/Attempt: one call in a `try` block.
-- - Transaction: web-app/src/utils/transaction.ts, in Transaction/Names, Transaction/Hashes and
--   Transaction/Logs (with `hexToDec` of web-app/src/utils/number.ts); Transaction/Detail:
--   web-app/src/hooks/useTransactionDetail.ts;
--   Transaction/Cts: the messages' texts, of the same file; Transaction/Page and
--   Transaction/Packets: web-app/src/components/client/transaction/TransactionDetailPage.tsx, and the
--   packets there; Transaction/Data: the tabs of a transaction,
--   web-app/src/components/client/transaction/TransactionData, with AddressLink.tsx of
--   web-app/src/components/client/address.
-- - Address: the addresses of web-app/src/utils/address.ts.
-- - Format: the texts of numbers, amounts and types (web-app/src/utils/number.ts,
--   web-app/src/utils/common.ts, web-app/src/utils/address.ts).
-- - Search: web-app/src/services/search.service.ts; Search/Items and Search/Box:
--   _SearchResultContent.tsx and Search.tsx in web-app/src/components/client/search. The box is a
--   machine: a text that changes, the timeout, and searches that are answered in any order.
-- - Block: web-app/src/components/client/block and web-app/src/app/[rollappPath]/block, with what
--   the page makes of web-app/src/hooks/useBlockDetail.ts; Block/Recent: the lists of blocks.
-- - Layout: Layout/index.tsx and ThemeProvider.tsx in web-app/src/components/client/commons, with
--   web-app/src/app/layout.tsx and web-app/src/app/[rollappPath]/layout.tsx; Layout/Breadcrumb:
--   web-app/src/components/commons/PageBreadcrumb.tsx; Layout/Sider and Layout/Logo: Layout/_Sider.tsx
--   with RollappSelect.tsx, and Layout/_Header/_Logo.tsx, of web-app/src/components/client/commons;
--   Layout/Params: web-app/src/components/client/params/ParamsPage.tsx.
-- - Health: web-app/src/app/api/health/indexing-fallbehind-chains/route.ts.
-- - Cache: web-app/src/utils/cache.ts and web-app/src/utils/prismaCache.ts, as a machine whose events
--   are calls, settlements, failures and the passing of time: a call awaits its function, and calls
--   overlap.
-- - Database: web-app/src/services/db, as the conditions and orders that the queries ask for;
--   Database/Search: the search on the server, web-app/src/actions/transaction.ts and
--   web-app/src/app/api/search; Database/Chains: the names of chains, with
--   web-app/src/app/api/chain-info and web-app/src/app/by-chain-id.
-- - Account: the page of web-app/src/app/[rollappPath]/address/[address]; Account/Transactions: that
--   of web-app/src/app/[rollappPath]/txs; Account/Summary: AddressSummary.tsx and
--   AddressTransactionsSection.tsx in web-app/src/components/client/address; Account/Governor:
--   ValidatorDetail.tsx, AddressPageTitle.tsx, TokenSummary.tsx and AddressPage.tsx there, with
--   web-app/src/components/commons/DetailItem.tsx.
-- - Table: web-app/src/components/commons/DataTable.tsx; Table/Coins, Table/Tokens, Table/Block,
--   Table/Transactions and Table/Validators: the tables of AddressCoins.tsx, AddressTokens.tsx,
--   TransactionListByBlockNo.tsx, TransactionListTable.tsx and ValidatorList.tsx in
--   web-app/src/components/client; Table/Staking: AddressStaking.tsx and AddressNfts.tsx there.
-- - Governance: web-app/src/utils/proposal.ts, web-app/src/utils/governance.ts and
--   web-app/src/consts/proposal.ts; Governance/Proposals with
--   Governance/Proposals/Paging, Governance/Tally and Governance/Detail: GovernanceList.tsx,
--   GovernanceDetail.tsx, GovernanceItem.tsx and ProposalStatusText.tsx in
--   web-app/src/components/client/governance.
-- - Common: what the parts share: lists, texts, decimal numerals, objects as association lists, the
--   sort. Tests: concrete inputs.
--
-- A text is the list of its UTF-16 code units. A number that comes from a query or from the server
-- is a natural number or `NaN`; the heights and pages of the explorer are far below 2^53, so they
-- are exact. `Locale` is a parameter that stands for `toLowerCase`, `toUpperCase` and
-- `localeCompare`, `Bech32` for the package `bech32`, and `get_address` for the package
-- `@ethersproject/address`, `divide` for the division of `big.js`, and the server's replies are
-- functions of the requests; their hypotheses are what these document. So are those of `NodeCache`
-- (the package `node-cache`), of `Model` (`@prisma/client`) and of `Rounding` (`big.js`). The pages of
-- a query are taken to be parts of one list only where its `orderBy` tells the rows apart. The texts
-- that `big.js`, `dayjs` and the locale make of a number or a time are parameters without hypotheses:
-- `Arithmetic`, `number`, `format`, `time` and `percent`; `escan_url` stands for a variable of the
-- environment.
--
-- The loop of `useDenomsMetadata` has no bound, and is modelled on fuel; as many rounds as the
-- server has pages are enough. Printing a number has fuel for every digit.
--
-- Not modelled: the indexer (Go), the rendering of the React pages and components, the scheduling of
-- React effects, `fetch` and its abort controller, and dates.
pub mod Common
pub mod Pagination
pub mod Pathname
pub mod Rollapp
pub mod Store
pub mod Rpc
pub mod Hooks
pub mod Transaction
pub mod Address
pub mod Health
pub mod Search
pub mod Cache
pub mod Table
pub mod Governance
pub mod Database
pub mod Account
pub mod Format
pub mod Block
pub mod Layout
pub mod Tests
